-- ===== src/Common/TextOrder.antt =====
-- The order of texts: `Ord for str`, byte by byte, which for UTF-8 is character by character.
use Prim.Native.Nat.{◌<◌, Ordering, compare as compare_ℕ}
use Prim.Native.Char.{Char, code}
use Prim.Native.String.{String, ◌∷◌, [], compare, then}
use Prim.Native.String.compare
use mathlib.Core.Path.{◌≡◌, refl, sym, ◌∙◌}
use mathlib.Core.Bool.{Bool, true, false}
use mathlib.Core.Logic.{◌⊎◌, ◌↔◌, inl, inr}
use native.Mathlib.Decide.{dec_lt}
use native.Mathlib.Omega.{arith}
use text.Mathlib.TextEquality.{Char-path}
use text.Mathlib.TextPositions.{compare_refl}

abbrev pub str_ltb : String → String → Bool
str_ltb s t = elim (compare s t) [ Ordering.lt ↦ true | _ ↦ false ]

abbrev pub Less : String → String → Type 0
Less s t = compare s t ≡ Ordering.lt

-- The two ways for a lexicographic comparison to answer `lt`.
then-cases :
    (a b : Ordering)
    → then a b ≡ Ordering.lt
    → (a ≡ Ordering.lt) ⊎ ((a ≡ Ordering.eq) × (b ≡ Ordering.lt))
then-cases Ordering.lt b h = inl refl
then-cases Ordering.eq b h = inr (refl, h)
then-cases Ordering.gt b h = cc

abbrev Before : Char → String → Char → String → Type 0
Before c s d t = (code c < code d) ⊎ ((code c ≡ code d) × Less s t)

Less-cons : (c d : Char) (s t : String) → Less (c ∷ s) (d ∷ t) ↔ Before c s d t
Less-cons c d s t = (
  λ h.
      elim (then-cases (compare_ℕ (code c) (code d)) (compare s t)
        (sym (compare.cons-cons c d s t) ∙ h)) [
          | inl a ↦ inl (ground arith)
          | inr (a, b) ↦ inr (ground arith, b)
        ],
  λ h. compare.cons-cons c d s t ∙ before h,
)
  where
    before : Before c s d t → then (compare_ℕ (code c) (code d)) (compare s t) ≡ Ordering.lt
    before (inl a) = ground arith
    before (inr (a, b)) = ground arith

not-Less-nil : (s : String) → ¬ Less s []
not-Less-nil [] h = cc (compare.nil-nil)
not-Less-nil (c ∷ s) h = cc (compare.cons-nil c s)

pub Less-trans : (s t u : String) → Less s t → Less t u → Less s u
Less-trans [] t [] h k = absurd (not-Less-nil t k)
Less-trans [] t (d ∷ u) h k = compare.nil-cons d u
Less-trans (c ∷ s) [] u h k = absurd (not-Less-nil (c ∷ s) h)
Less-trans (c ∷ s) (d ∷ t) [] h k = absurd (not-Less-nil (d ∷ t) k)
Less-trans (c ∷ s) (d ∷ t) (e ∷ u) h k = (Less-cons c e s u).1 (elim ((Less-cons c d s t).0 h) [
  | inl a ↦ elim ((Less-cons d e t u).0 k) [
    | inl b ↦ inl (omega arith)
    | inr (b, l) ↦ inl (omega arith)
  ]
  | inr (a, l) ↦ elim ((Less-cons d e t u).0 k) [
    | inl b ↦ inl (omega arith)
    | inr (b, m) ↦ inr (omega arith, Less-trans s t u l m)
  ]
])

pub not-Less_self : (s : String) → ¬ Less s s
not-Less_self s h = cc (compare_refl s)

pub Less-total : (s t : String) → (s ≡ t) ⊎ (Less s t ⊎ Less t s)
Less-total [] [] = inl refl
Less-total [] (d ∷ t) = inr (inl (compare.nil-cons d t))
Less-total (c ∷ s) [] = inr (inr (compare.nil-cons c s))
Less-total (c ∷ s) (d ∷ t) = elim (dec_lt (code c) (code d)) [
  | yes a ↦ inr (inl ((Less-cons c d s t).1 (inl a)))
  | no a ↦ elim (dec_lt (code d) (code c)) [
    | yes b ↦ inr (inr ((Less-cons d c t s).1 (inl b)))
    | no b ↦
        let e : code c ≡ code d = omega arith in
        elim (Less-total s t) [
          | inl p ↦ inl (λ i. Char-path c d e i ∷ p i)
          | inr (inl l) ↦ inr (inl ((Less-cons c d s t).1 (inr (e, l))))
          | inr (inr l) ↦ inr (inr ((Less-cons d c t s).1 (inr (sym e, l))))
        ]
  ]
]
