-- ===== src/Common/Sorted.antt =====
-- `Vec<String>::sort` and `Vec::dedup`: together they list each text once, in ascending order.
use mathlib.Core.Path.{◌≡◌, refl, sym, subst, ◌∙◌}
use mathlib.Core.Bool.{false}
use mathlib.Core.Logic.{◌⊎◌, ◌↔◌, inl, inr}
use mathlib.Core.List.{List, [], ◌∷◌}
use Prim.Native.String.{String}
use native.Mathlib.Omega.{arith}
use dmarc_report_viewer.Common.Tests.{◌==◌, string_eq, if◌then◌else◌, Bool-cases}
use dmarc_report_viewer.Common.Lists.{In, here, there, In-cons}
use dmarc_report_viewer.Common.TextOrder.{str_ltb, Less, Less-trans, Less-total}

unfoldable pub insert_sorted : String → List String → List String
insert_sorted x [] = x ∷ []
insert_sorted x (y ∷ ys) =
    let rest = insert_sorted x ys in if str_ltb y x then y ∷ rest else x ∷ y ∷ ys

unfoldable pub sort : List String → List String
unfolding insert_sorted
sort [] = []
sort (x ∷ xs) = insert_sorted x (sort xs)

-- `dedup` drops an element that equals the one before it.
unfoldable pub dedup : List String → List String
dedup [] = []
dedup (x ∷ []) = x ∷ []
dedup (x ∷ y ∷ ys) = let rest = dedup (y ∷ ys) in if x == y then rest else x ∷ rest

abbrev pub LessEq : String → String → Type 0
LessEq s t = (s ≡ t) ⊎ Less s t

abbrev All≥ : String → List String → Type 0
All≥ x [] = Unit
All≥ x (y ∷ ys) = LessEq x y × All≥ x ys

abbrev Ascending : List String → Type 0
Ascending [] = Unit
Ascending (x ∷ xs) = All≥ x xs × Ascending xs

abbrev pub AllAbove : String → List String → Type 0
AllAbove x [] = Unit
AllAbove x (y ∷ ys) = Less x y × AllAbove x ys

-- Each text is less than all that follow it.
abbrev pub StrictlyAscending : List String → Type 0
StrictlyAscending [] = Unit
StrictlyAscending (x ∷ xs) = AllAbove x xs × StrictlyAscending xs

LessEq-trans : (s t u : String) → LessEq s t → LessEq t u → LessEq s u
LessEq-trans s t u (inl p) k = subst (λ r. LessEq r u) (sym p) k
LessEq-trans s t u (inr l) (inl q) = inr (subst (Less s) q l)
LessEq-trans s t u (inr l) (inr m) = inr (Less-trans s t u l m)

All≥-trans : (x y : String) (ys : List String) → LessEq x y → All≥ y ys → All≥ x ys
All≥-trans x y [] l a = tt
All≥-trans x y (z ∷ zs) l a = (LessEq-trans x y z l a.0, All≥-trans x y zs l a.1)

All≥-insert_sorted :
    (x y : String) (ys : List String) → LessEq x y → All≥ x ys → All≥ x (insert_sorted y ys)
unfolding insert_sorted
All≥-insert_sorted x y [] l a = (l, tt)
All≥-insert_sorted x y (z ∷ zs) l a = elim (Bool-cases (str_ltb z y)) [
  | inl t ↦ rw (t, insert_sorted) (a.0, All≥-insert_sorted x y zs l a.1)
  | inr t ↦ rw (t, insert_sorted) (l, a)
]

LessEq-of_not-ltb : (s t : String) → str_ltb t s ≡ false → LessEq s t
LessEq-of_not-ltb s t h = elim (Less-total s t) [
  | inl p ↦ inl p
  | inr (inl l) ↦ inr l
  | inr (inr l) ↦ absurd (ground arith)
]

insert_sorted-Ascending :
    (x : String) (xs : List String) → Ascending xs → Ascending (insert_sorted x xs)
unfolding insert_sorted
insert_sorted-Ascending x [] a = (tt, tt)
insert_sorted-Ascending x (y ∷ ys) a = elim (Bool-cases (str_ltb y x)) [
  | inl t ↦
      rw (t, insert_sorted)
        (All≥-insert_sorted y x ys (inr (ground arith)) a.0, insert_sorted-Ascending x ys a.1)
  | inr t ↦
      let l : LessEq x y = LessEq-of_not-ltb x y t in
      rw (t, insert_sorted) ((l, All≥-trans x y ys l a.0), a)
]

sort-Ascending : (xs : List String) → Ascending (sort xs)
unfolding sort
sort-Ascending [] = tt
sort-Ascending (x ∷ xs) = insert_sorted-Ascending x (sort xs) (sort-Ascending xs)

All≥-dedup : (x : String) (xs : List String) → All≥ x xs → All≥ x (dedup xs)
unfolding dedup
All≥-dedup x [] a = tt
All≥-dedup x (y ∷ []) a = a
All≥-dedup x (y ∷ z ∷ zs) a = elim (Bool-cases (y == z)) [
  | inl t ↦ rw (t, dedup) (All≥-dedup x (z ∷ zs) a.1)
  | inr t ↦ rw (t, dedup) (a.0, All≥-dedup x (z ∷ zs) a.1)
]

AllAbove-of_All≥ : (x y : String) (ys : List String) → Less x y → All≥ y ys → AllAbove x ys
AllAbove-of_All≥ x y [] l a = tt
AllAbove-of_All≥ x y (z ∷ zs) l a = (
  elim a.0 [ inl p ↦ subst (Less x) p l | inr m ↦ Less-trans x y z l m ],
  AllAbove-of_All≥ x y zs l a.1,
)

All≥-self : (x : String) (xs : List String) → Ascending (x ∷ xs) → All≥ x (dedup (x ∷ xs))
All≥-self x xs a = All≥-dedup x (x ∷ xs) (inl refl, a.0)

pub dedup-StrictlyAscending : (xs : List String) → Ascending xs → StrictlyAscending (dedup xs)
unfolding dedup
dedup-StrictlyAscending [] a = tt
dedup-StrictlyAscending (x ∷ []) a = (tt, tt)
dedup-StrictlyAscending (x ∷ y ∷ ys) a = elim (Bool-cases (x == y)) [
  | inl t ↦ rw (t, dedup) (dedup-StrictlyAscending (y ∷ ys) a.1)
  | inr t ↦
      rw (t, dedup)
        (
          AllAbove-of_All≥ x y (dedup (y ∷ ys)) (strict t a.0.0) (All≥-self y ys a.1),
          dedup-StrictlyAscending (y ∷ ys) a.1,
        )
]
  where
    strict : (x == y) ≡ false → LessEq x y → Less x y
    strict t (inl p) = absurd (ground (arith, (string_eq.equals_iff x y).1 p))
    strict t (inr l) = l

In-insert_sorted_iff : (a x : String) (xs : List String) → In a (insert_sorted x xs) ↔ In a (x ∷ xs)
unfolding insert_sorted
In-insert_sorted_iff a x [] = (λ h. h, λ h. h)
In-insert_sorted_iff a x (y ∷ ys) = elim (Bool-cases (str_ltb y x)) [
  | inl t ↦
      let ih = In-insert_sorted_iff a x ys in
      rw (t, insert_sorted)
        (
          λ h. elim (In-cons h) [
            | inl e ↦ there (here e)
            | inr r ↦ elim (In-cons (ih.0 r)) [ inl e ↦ here e | inr q ↦ there (there q) ]
          ],
          λ h. elim (In-cons h) [
            | inl e ↦ there (ih.1 (here e))
            | inr r ↦ elim (In-cons r) [ inl e ↦ here e | inr q ↦ there (ih.1 (there q)) ]
          ],
        )
  | inr t ↦ rw (t, insert_sorted) (λ h. h, λ h. h)
]

In-sort_iff : (a : String) (xs : List String) → In a (sort xs) ↔ In a xs
unfolding sort
In-sort_iff a [] = (λ h. h, λ h. h)
In-sort_iff a (x ∷ xs) =
    let ih = In-sort_iff a xs in
    let placed = In-insert_sorted_iff a x (sort xs) in
    (
      λ h. elim (In-cons (placed.0 h)) [ inl e ↦ here e | inr r ↦ there (ih.0 r) ],
      λ h. elim (In-cons h) [ inl e ↦ placed.1 (here e) | inr r ↦ placed.1 (there (ih.1 r)) ],
    )

In-dedup_iff : (a : String) (xs : List String) → In a (dedup xs) ↔ In a xs
unfolding dedup
In-dedup_iff a [] = (λ h. h, λ h. h)
In-dedup_iff a (x ∷ []) = (λ h. h, λ h. h)
In-dedup_iff a (x ∷ y ∷ ys) = elim (Bool-cases (x == y)) [
  | inl t ↦
      let ih = In-dedup_iff a (y ∷ ys) in
      let p = (string_eq.equals_iff x y).0 t in
      rw (t, dedup)
        (
          λ h. there (ih.0 h),
          λ h. elim (In-cons h) [ inl e ↦ ih.1 (here (e ∙ p)) | inr r ↦ ih.1 r ],
        )
  | inr t ↦
      let ih = In-dedup_iff a (y ∷ ys) in
      rw (t, dedup)
        (
          λ h. elim (In-cons h) [ inl e ↦ here e | inr r ↦ there (ih.0 r) ],
          λ h. elim (In-cons h) [ inl e ↦ here e | inr r ↦ there (ih.1 r) ],
        )
]

-- Sorting and then dropping repetitions leaves each text of the list once, in ascending order.
pub dedup-sort :
    (xs : List String)
    → StrictlyAscending (dedup (sort xs)) × ((a : String) → In a (dedup (sort xs)) ↔ In a xs)
dedup-sort xs = (
  dedup-StrictlyAscending (sort xs) (sort-Ascending xs),
  λ a. (
    λ h. (In-sort_iff a xs).0 ((In-dedup_iff a (sort xs)).0 h),
    λ h. (In-dedup_iff a (sort xs)).1 ((In-sort_iff a xs).1 h),
  ),
)
