-- ===== src/Common/Lists.antt =====
-- Lists measured by native numbers, Boolean searches over them, and membership.
use Prim.Native.Nat.{ℕ, suc, ◌+◌, ◌≤◌}
use mathlib.Core.Path.{◌≡◌, refl, sym, ap, ◌∙◌, subst}
use mathlib.Core.Bool.{Bool, true, false, ◌||◌, ◌&&◌}
use mathlib.Core.Logic.{◌↔◌, ◌⊎◌, inl, inr}
use mathlib.Core.List.{List, [], ◌∷◌, ◌++◌, map}
use mathlib.Core.Option.{Option, none, some}
use native.Mathlib.Omega.{arith}
use dmarc_report_viewer.Common.Tests.{if◌then◌else◌, Bool-cases}

module _ {ℓ} {A : Type ℓ} where
  abbrev pub length : List A → ℕ
  length [] = 0
  length (x ∷ xs) = suc (length xs)

  pub length-append : (xs ys : List A) → length (xs ++ ys) ≡ length xs + length ys
  length-append [] ys = omega arith
  length-append (x ∷ xs) ys = omega (arith, length-append xs ys)

  abbrev pub is_empty : List A → Bool
  is_empty [] = true
  is_empty (x ∷ xs) = false

  -- `Iterator::any` and `Iterator::all`
  unfoldable pub any : (A → Bool) → List A → Bool
  any p [] = false
  any p (x ∷ xs) = p x || any p xs

  unfoldable pub all : (A → Bool) → List A → Bool
  all p [] = true
  all p (x ∷ xs) = p x && all p xs

  -- `Iterator::filter`, by a Boolean test
  unfoldable pub filter : (A → Bool) → List A → List A
  filter p [] = []
  filter p (x ∷ xs) = let rest = filter p xs in if p x then x ∷ rest else rest

  -- Two filters in a row are one filter by both tests.
  pub filter-filter :
      (p q : A → Bool) (xs : List A) → filter q (filter p xs) ≡ filter (λ x. p x && q x) xs
  unfolding filter
  filter-filter p q [] = refl
  filter-filter p q (x ∷ xs) = ground (arith, filter-filter p q xs)

  pub length-filter-le : (p : A → Bool) (xs : List A) → length (filter p xs) ≤ length xs
  unfolding filter
  length-filter-le p [] = omega arith
  length-filter-le p (x ∷ xs) = ground (arith, length-filter-le p xs)

-- `In a xs`: a place of `xs` that holds `a`.
pub data In {ℓ} {A : Type ℓ} (a : A) : List A → Type ℓ where
  here : {x : A} {xs : List A} → a ≡ x → In a (x ∷ xs)
  there : {x : A} {xs : List A} → In a xs → In a (x ∷ xs)

-- `Any P xs`: a place of `xs` whose element meets `P`.
pub data Any {ℓ κ} {A : Type ℓ} (P : A → Type κ) : List A → Type (ℓ ⊔ κ) where
  now : {x : A} {xs : List A} → P x → Any P (x ∷ xs)
  later : {x : A} {xs : List A} → Any P xs → Any P (x ∷ xs)

module _ {ℓ} {A : Type ℓ} where
  pub not-In-nil : {a : A} → ¬ In a []
  not-In-nil h = elim h [ ]

  Any-of_any : (p : A → Bool) (xs : List A) → any p xs ≡ true → Any (λ x. p x ≡ true) xs
  unfolding any
  Any-of_any p [] h = cc
  Any-of_any p (x ∷ xs) h = elim (Bool-cases (p x)) [
    | inl e ↦ now e
    | inr e ↦ later (Any-of_any p xs (ground arith))
  ]

  any_of_Any : (p : A → Bool) (xs : List A) → Any (λ x. p x ≡ true) xs → any p xs ≡ true
  unfolding any
  any_of_Any p [] h = elim h [ ]
  any_of_Any p (x ∷ xs) (now e) = ground arith
  any_of_Any p (x ∷ xs) (later h) = ground (arith, any_of_Any p xs h)

  -- `any` answers true exactly when some element meets the test.
  pub any_iff : (p : A → Bool) (xs : List A) → (any p xs ≡ true) ↔ Any (λ x. p x ≡ true) xs
  any_iff p xs = (Any-of_any p xs, any_of_Any p xs)

  pub In-cons : {a x : A} {xs : List A} → In a (x ∷ xs) → (a ≡ x) ⊎ In a xs
  In-cons (here e) = inl e
  In-cons (there h) = inr h

  In-of_In-filter :
      (p : A → Bool) (a : A) (xs : List A) → In a (filter p xs) → In a xs × (p a ≡ true)
  unfolding filter
  In-of_In-filter p a [] h = elim h [ ]
  In-of_In-filter p a (x ∷ xs) h = elim (Bool-cases (p x)) [
    | inl e ↦ elim (In-cons (rw (e, filter) at h)) [
      | inl q ↦ (here q, ap p q ∙ e)
      | inr r ↦ let (i, t) = In-of_In-filter p a xs r in (there i, t)
    ]
    | inr e ↦ let (i, t) = In-of_In-filter p a xs (rw (e, filter) at h) in (there i, t)
  ]

  In-filter_of_In : (p : A → Bool) (a : A) (xs : List A) → In a xs → p a ≡ true → In a (filter p xs)
  unfolding filter
  In-filter_of_In p a [] h t = elim h [ ]
  In-filter_of_In p a (x ∷ xs) (here e) t = rw (sym (ap p e) ∙ t, filter) (here e)
  In-filter_of_In p a (x ∷ xs) (there h) t = elim (Bool-cases (p x)) [
    | inl e ↦ rw (e, filter) (there (In-filter_of_In p a xs h t))
    | inr e ↦ rw (e, filter) (In-filter_of_In p a xs h t)
  ]

  -- What a filter keeps.
  pub In-filter_iff :
      (p : A → Bool) (a : A) (xs : List A) → In a (filter p xs) ↔ (In a xs × (p a ≡ true))
  In-filter_iff p a xs = (In-of_In-filter p a xs, λ h. In-filter_of_In p a xs h.0 h.1)

module _ {ℓ κ} {A : Type ℓ} {B : Type κ} where
  pub filter-map :
      (q : B → Bool) (f : A → B) (xs : List A)
      → filter q (map f xs) ≡ map f (filter (λ x. q (f x)) xs)
  unfolding filter
  filter-map q f [] = refl
  filter-map q f (x ∷ xs) = ground (arith, filter-map q f xs)

  In-of_In-map : (f : A → B) (b : B) (xs : List A) → In b (map f xs) → (a : A) × In a xs × (b ≡ f a)
  In-of_In-map f b [] h = absurd (not-In-nil h)
  In-of_In-map f b (x ∷ xs) h = elim (In-cons h) [
    | inl e ↦ (x, here refl, e)
    | inr r ↦ let (a, i, e) = In-of_In-map f b xs r in (a, there i, e)
  ]

  In-map_of_In : (f : A → B) (b : B) (xs : List A) (a : A) → In a xs → b ≡ f a → In b (map f xs)
  In-map_of_In f b [] a h e = absurd (not-In-nil h)
  In-map_of_In f b (x ∷ xs) a h e = elim (In-cons h) [
    | inl p ↦ here (e ∙ ap f p)
    | inr r ↦ there (In-map_of_In f b xs a r e)
  ]

  -- The elements of a mapped list are the images of the elements.
  pub In-map_iff :
      (f : A → B) (b : B) (xs : List A) → In b (map f xs) ↔ ((a : A) × In a xs × (b ≡ f a))
  In-map_iff f b xs = (In-of_In-map f b xs, λ h. In-map_of_In f b xs h.0 h.1 h.2)

module _ {ℓ κ μ} {A : Type ℓ} {P : A → Type κ} {Q : A → Type μ} where
  pub Any-map : ((a : A) → P a → Q a) → (xs : List A) → Any P xs → Any Q xs
  Any-map f [] h = elim h [ ]
  Any-map f (x ∷ xs) (now p) = now (f x p)
  Any-map f (x ∷ xs) (later h) = later (Any-map f xs h)

-- `any` with a test that decides a predicate.
pub any_decides {ℓ κ} :
    {A : Type ℓ} (P : A → Type κ) (p : A → Bool)
    → ((a : A) → (p a ≡ true) ↔ P a)
    → (xs : List A) → (any p xs ≡ true) ↔ Any P xs
any_decides P p d xs = (
  λ h. Any-map (λ a. (d a).0) xs ((any_iff p xs).0 h),
  λ h. (any_iff p xs).1 (Any-map (λ a. (d a).1) xs h),
)

-- A filter with a test that decides a predicate.
pub In-filter_decides {ℓ κ} :
    {A : Type ℓ} (P : A → Type κ) (p : A → Bool)
    → ((a : A) → (p a ≡ true) ↔ P a)
    → (a : A) (xs : List A) → In a (filter p xs) ↔ (In a xs × P a)
In-filter_decides P p d a xs = (
  λ h. let (i, t) = (In-filter_iff p a xs).0 h in (i, (d a).0 t),
  λ (i, t). (In-filter_iff p a xs).1 (i, (d a).1 t),
)

-- One more filter: what `xs` keeps of `ys` and what the test decides.
pub In-filter_then {ℓ κ μ} :
    {A : Type ℓ} {Q : Type κ} (P : A → Type μ) (p : A → Bool)
    → ((a : A) → (p a ≡ true) ↔ P a)
    → (a : A) (xs ys : List A) → In a xs ↔ (In a ys × Q)
    → In a (filter p xs) ↔ (In a ys × (Q × P a))
In-filter_then P p d a xs ys before = (
  λ h. let (i, t) = (In-filter_decides P p d a xs).0 h in let (j, q) = before.0 i in (j, (q, t)),
  λ (j, both). (In-filter_decides P p d a xs).1 (before.1 (j, both.0), both.1),
)

module _ {ℓ κ} {A : Type ℓ} {B : Type κ} where
  abbrev pub flat_map : (A → List B) → List A → List B
  flat_map f [] = []
  flat_map f (x ∷ xs) = f x ++ flat_map f xs

-- The elements of an optional list
abbrev pub or_empty {ℓ} : {A : Type ℓ} → Option (List A) → List A
or_empty none = []
or_empty (some xs) = xs

-- `All P xs`: every element of `xs` meets `P`.
abbrev pub All {ℓ κ} : {A : Type ℓ} → (A → Type κ) → List A → Type κ
All P [] = Unit
All P (x ∷ xs) = P x × All P xs

pub All-append {ℓ κ} :
    {A : Type ℓ} (P : A → Type κ) (xs ys : List A) → All P xs → All P ys → All P (xs ++ ys)
All-append P [] ys p q = q
All-append P (x ∷ xs) ys p q = (p.0, All-append P xs ys p.1 q)

pub All-In {ℓ κ} : {A : Type ℓ} (P : A → Type κ) (a : A) (xs : List A) → All P xs → In a xs → P a
All-In P a [] p h = elim h [ ]
All-In P a (x ∷ xs) p (here e) = subst P (sym e) p.0
All-In P a (x ∷ xs) p (there h) = All-In P a xs p.1 h

pub All-map {ℓ κ μ} :
    {A : Type ℓ} (P : A → Type κ) (Q : A → Type μ)
    → ((a : A) → P a → Q a)
    → (xs : List A) → All P xs
    → All Q xs
All-map P Q f [] p = tt
All-map P Q f (x ∷ xs) p = (f x p.0, All-map P Q f xs p.1)

pub All_of_In {ℓ κ} :
    {A : Type ℓ} (P : A → Type κ) (xs : List A) → ((a : A) → In a xs → P a) → All P xs
All_of_In P [] h = tt
All_of_In P (x ∷ xs) h = (h x (here refl), All_of_In P xs (λ a i. h a (there i)))

pub All_of_map {ℓ κ μ} :
    {A : Type ℓ} {B : Type κ} (P : B → Type μ) (f : A → B) (xs : List A)
    → All (λ a. P (f a)) xs
    → All P (map f xs)
All_of_map P f [] h = tt
All_of_map P f (x ∷ xs) h = (h.0, All_of_map P f xs h.1)

pub List-cases {ℓ} :
    {A : Type ℓ} (xs : List A) → (xs ≡ []) ⊎ ((x : A) × (rest : List A) × (xs ≡ x ∷ rest))
List-cases [] = inl refl
List-cases (x ∷ xs) = inr (x, xs, refl)
