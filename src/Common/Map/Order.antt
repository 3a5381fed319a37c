-- ===== src/Common/Map/Order.antt =====
-- Maps as association lists: the order of the entries does not matter to a lookup.
use mathlib.Core.Path.{◌≡◌, refl, sym, ap, ◌∙◌, subst}
use mathlib.Core.Logic.{∥∥₁_elim, inl, inr}
use mathlib.Core.HLevel.{hedberg}
use mathlib.Core.List.{List, [], ◌∷◌, map, Perm, Permᴰ}
use mathlib.Core.List.Permᴰ.{nil, cons, swap, trans}
use mathlib.Core.Option.{Option, none, some}
use mathlib.Core.Option
use Prim.Native.String.{String}
use native.Mathlib.Omega.{arith}
use dmarc_report_viewer.Common.Tests.{Eq, ◌==◌, if◌then◌else◌, Bool-cases, string_eq}
use dmarc_report_viewer.Common.Map.{get}
use dmarc_report_viewer.Common.Map.Keys.{IsDistinct}

module _ {ℓ κ} {K : Type ℓ} {V : Type κ} ⦃e : Eq K⦄ where
  -- The lists have no key twice, and every lookup answers the same.
  abbrev AreSame : List (K × V) → List (K × V) → Type (ℓ ⊔ κ)
  AreSame xs ys = IsDistinct ys × ((k : K) → get k xs ≡ get k ys)

  swap-AreSame :
      (a b : K × V) (m : List (K × V)) → IsDistinct (a ∷ b ∷ m) → AreSame (a ∷ b ∷ m) (b ∷ a ∷ m)
  unfolding get
  swap-AreSame a b m (h, (g, d)) = elim (Bool-cases (b.0 == a.0)) [
    | inl same ↦ absurd (ground arith)
    | inr differ ↦ (
      (ground (arith, e.equals_iff a.0 b.0, e.equals_iff b.0 a.0), (ground arith, d)),
      λ k. ground (arith, e.equals_iff a.0 k, e.equals_iff b.0 k, e.equals_iff b.0 a.0),
    )
  ]

  AreSame-of_Permᴰ : {xs ys : List (K × V)} → Permᴰ xs ys → IsDistinct xs → AreSame xs ys
  unfolding get
  AreSame-of_Permᴰ nil h = (tt, λ k. refl)
  AreSame-of_Permᴰ (cons {a} {b} {l₁} {l₂} same d) h =
      let (distinct, finds) = AreSame-of_Permᴰ d h.1 in
      (
        (sym (finds b.0) ∙ ap (λ c. get c.0 l₁) (sym same) ∙ h.0, distinct),
        λ k. ap (λ c. get k (c ∷ l₁)) same ∙ ap (λ o. if b.0 == k then some b.1 else o) (finds k),
      )
  AreSame-of_Permᴰ (swap {a} {b} {a'} {b'} {l} first second) h =
      subst (λ c. AreSame (a ∷ b ∷ l) (c ∷ b' ∷ l)) second
        (subst (λ c. AreSame (a ∷ b ∷ l) (b ∷ c ∷ l)) first (swap-AreSame a b l h))
  AreSame-of_Permᴰ (trans p q) h =
      let (distinct, finds) = AreSame-of_Permᴰ p h in
      let (last, more) = AreSame-of_Permᴰ q distinct in (last, λ k. finds k ∙ more k)

-- A change of all values
pub get-map :
    (f : String → String) (k : String) (m : List (String × String))
    → get k (map (λ e. (e.0, f e.1)) m) ≡ Option.map f (get k m)
unfolding get
get-map f k [] = refl
get-map f k ((i, v) ∷ m) = ground (arith, get-map f k m)

String-discrete : Discrete String
String-discrete s t = elim (Bool-cases (s == t)) [
  | inl same ↦ yes ((string_eq.equals_iff s t).0 same)
  | inr differ ↦ no (λ p. ground (arith, (string_eq.equals_iff s t).1 p))
]

-- A lookup does not depend on the order of the entries.
pub get-Perm :
    {xs ys : List (String × String)} (k : String) → Perm xs ys → IsDistinct xs → get k xs ≡ get k ys
get-Perm {xs} {ys} k p h = ∥∥₁_elim p found_once (λ d. (AreSame-of_Permᴰ d h).1 k)
  where
    option_set : IsSet (Option String)
    option_set = hlevel (hedberg String-discrete)

    found_once : IsProp (get k xs ≡ get k ys)
    found_once = option_set (get k xs) (get k ys)
