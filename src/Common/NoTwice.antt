-- ===== src/Common/NoTwice.antt =====
-- Lists in which nothing stands twice.
use mathlib.Core.Path.{◌≡◌, refl}
use mathlib.Core.Bool.{Bool}
use mathlib.Core.Logic.{inl, inr}
use mathlib.Core.List.{List, [], ◌∷◌, ◌++◌}
use Prim.Native.String.{String}
use mathlib.Core.Option.{none}
use mathlib.Core.List.{map}
use native.Mathlib.Omega.{arith}
use dmarc_report_viewer.Common.Tests.{Bool-cases, string_eq}
use dmarc_report_viewer.Common.Lists.{In, here, there, In-cons, filter, In-filter_iff, not-In-nil}
use dmarc_report_viewer.Common.Map
use dmarc_report_viewer.Common.Map.Keys.{IsDistinct}

module _ {ℓ} {A : Type ℓ} where
  abbrev pub NoTwice : List A → Type ℓ
  NoTwice [] = Unit
  NoTwice (x ∷ xs) = (¬ In x xs) × NoTwice xs

  pub filter-NoTwice : (p : A → Bool) (xs : List A) → NoTwice xs → NoTwice (filter p xs)
  unfolding filter
  filter-NoTwice p [] h = tt
  filter-NoTwice p (x ∷ xs) h = elim (Bool-cases (p x)) [
    | inl e ↦ rw (e, filter) (λ i. h.0 ((In-filter_iff p x xs).0 i).0, filter-NoTwice p xs h.1)
    | inr e ↦ rw (e, filter) (filter-NoTwice p xs h.1)
  ]

  pub In-append {κ} :
      (a : A) (xs ys : List A) → In a (xs ++ ys) → (Q : Type κ) → (In a xs → Q) → (In a ys → Q) → Q
  In-append a [] ys i Q f g = g i
  In-append a (x ∷ xs) ys i Q f g = elim (In-cons i) [
    | inl e ↦ f (here e)
    | inr j ↦ In-append a xs ys j Q (λ k. f (there k)) g
  ]

  -- Two lists with nothing in common, one after the other.
  pub append-NoTwice :
      (xs ys : List A)
      → NoTwice xs
      → NoTwice ys
      → ((a : A) → In a xs → ¬ In a ys)
      → NoTwice (xs ++ ys)
  append-NoTwice [] ys p q d = q
  append-NoTwice (x ∷ xs) ys p q d = (
    λ i. d x (here refl) (In-append x xs ys i (In x ys) (λ j. absurd (p.0 j)) (λ j. j)),
    append-NoTwice xs ys p.1 q (λ a j. d a (there j)),
  )

module _ {ℓ} {V : Type ℓ} where
  not-In_of_get :
      (k : String) (m : List (String × V)) → Map.get k m ≡ none → ¬ In k (map (λ e. e.0) m)
  unfolding Map.get
  not-In_of_get k [] h = not-In-nil
  not-In_of_get k ((j, v) ∷ m) h = λ i. elim (In-cons i) [
    | inl e ↦ ground (arith, string_eq.equals_iff j k)
    | inr r ↦ not-In_of_get k m (ground arith) r
  ]

  pub keys-NoTwice : (m : List (String × V)) → IsDistinct m → NoTwice (map (λ e. e.0) m)
  keys-NoTwice [] h = tt
  keys-NoTwice ((k, v) ∷ m) h = (not-In_of_get k m h.0, keys-NoTwice m h.1)
