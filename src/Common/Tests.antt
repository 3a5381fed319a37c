-- ===== src/Common/Tests.antt =====
-- Boolean tests on numbers, the conditional, equality as an interface, and `usize` addition.
use Prim.Native.Nat.{ℕ, ◌+◌, ◌%◌, ◌^◌, ◌≤◌, ◌<◌, compare, Ordering}
use Prim.Native.String.{String}
use mathlib.Core.Path.{◌≡◌, refl}
use mathlib.Core.Logic.{◌↔◌, ◌⊎◌, inl, inr}
use mathlib.Core.Bool.{Bool, true, false, not, ◌&&◌, ◌||◌}
use mathlib.Core.Option.{Option, none, some}
use native.Mathlib.Omega.{arith}
use text.Mathlib.Text.{◌==◌ as str_eq}
use text.Mathlib.TextEquality.{eq_iff}

abbrev pub ltb : ℕ → ℕ → Bool
ltb a b = elim (compare a b) [ Ordering.lt ↦ true | _ ↦ false ]

abbrev pub leb : ℕ → ℕ → Bool
leb a b = elim (compare a b) [ Ordering.gt ↦ false | _ ↦ true ]

abbrev pub nat_beq : ℕ → ℕ → Bool
nat_beq a b = elim (compare a b) [ Ordering.eq ↦ true | _ ↦ false ]

infix 1 if◌then◌else◌
abbrev pub if◌then◌else◌ {ℓ} : {A : Type ℓ} → Bool → A → A → A
if true then x else y = x
if false then x else y = y

pub nat_beq_iff : (a b : ℕ) → (nat_beq a b ≡ true) ↔ (a ≡ b)
nat_beq_iff a b = ground arith

pub ltb_iff : (a b : ℕ) → (ltb a b ≡ true) ↔ (a < b)
ltb_iff a b = ground arith

pub Bool-cases : (b : Bool) → (b ≡ true) ⊎ (b ≡ false)
Bool-cases true = inl refl
Bool-cases false = inr refl

pub Option-cases {ℓ} : {A : Type ℓ} (o : Option A) → (o ≡ none) ⊎ ((a : A) × (o ≡ some a))
Option-cases none = inl refl
Option-cases (some a) = inr (a, refl)

-- `Option::is_none`, `Option::is_some` and `Option::is_none_or`
abbrev pub is_none {ℓ} : {A : Type ℓ} → Option A → Bool
is_none none = true
is_none (some a) = false

abbrev pub is_none_or {ℓ} : {A : Type ℓ} → Option A → (A → Bool) → Bool
is_none_or none p = true
is_none_or (some a) p = p a

-- `PartialEq`, with the equality that it decides.
pub record Eq {ℓ} (A : Type ℓ) : Type ℓ where
  pub equals : A → A → Bool
  pub equals_iff : (a b : A) → (equals a b ≡ true) ↔ (a ≡ b)

-- The answer of a decision, for the enums' derived `PartialEq`.
abbrev pub decides {ℓ} : {P : Type ℓ} → Dec P → Bool
decides (yes p) = true
decides (no p) = false

pub decides_iff {ℓ} : {P : Type ℓ} (d : Dec P) → (decides d ≡ true) ↔ P
decides_iff (yes p) = (λ _. p, λ _. refl)
decides_iff (no p) = (λ e. cc, λ q. absurd (p q))

abbrev pub eq_of_discrete {ℓ} : {A : Type ℓ} → Discrete A → Eq A
eq_of_discrete d = record {
  equals = λ a b. decides (d a b);
  equals_iff = λ a b. decides_iff (d a b);
}

infix 50 ◌==◌
abbrev pub ◌==◌ {ℓ} : {A : Type ℓ} ⦃e : Eq A⦄ → A → A → Bool
◌==◌ ⦃e⦄ = e.equals

-- `usize` and `u64` addition: it wraps, as in a release build.
abbrev pub u64_mod : ℕ
u64_mod = 2 ^ 64

pub add_u64 : ℕ → ℕ → ℕ
add_u64 a b = (a + b) % u64_mod

pub add_u64_lem : (a b : ℕ) → add_u64 a b ≡ (a + b) % u64_mod
unfolding add_u64
add_u64_lem a b = refl

-- `is_none_or` tests the value, if there is one.
pub is_none_or_iff {ℓ} :
    {A : Type ℓ} (o : Option A) (p : A → Bool)
    → (is_none_or o p ≡ true) ↔ ((a : A) → o ≡ some a → p a ≡ true)
is_none_or_iff none p = (λ _ a e. cc, λ _. refl)
is_none_or_iff (some b) p = (λ h a e. cc, λ h. h b refl)

pub &&_iff : (a b : Bool) → ((a && b) ≡ true) ↔ ((a ≡ true) × (b ≡ true))
&&_iff a b = ground arith

pub ||_iff : (a b : Bool) → ((a || b) ≡ true) ↔ ((a ≡ true) ⊎ (b ≡ true))
||_iff true b = (λ _. inl refl, λ _. refl)
||_iff false b = (λ h. inr h, λ h. elim h [ inl e ↦ cc | inr e ↦ e ])

-- An optional filter with a test that decides a predicate.
pub is_none_or_decides {ℓ κ} :
    {A : Type ℓ} (P : A → Type κ) (o : Option A) (p : A → Bool)
    → ((a : A) → (p a ≡ true) ↔ P a)
    → (is_none_or o p ≡ true) ↔ ((a : A) → o ≡ some a → P a)
is_none_or_decides P o p d = (
  λ h a e. (d a).0 ((is_none_or_iff o p).0 h a e),
  λ h. (is_none_or_iff o p).1 (λ a e. (d a).1 (h a e)),
)

-- `==` on `bool`
abbrev pub bool_eq : Bool → Bool → Bool
bool_eq true b = b
bool_eq false b = not b

pub bool_eq_iff : (a b : Bool) → (bool_eq a b ≡ true) ↔ (a ≡ b)
bool_eq_iff a b = ground arith

pub leb_iff : (a b : ℕ) → (leb a b ≡ true) ↔ (a ≤ b)
leb_iff a b = ground arith

pub and_iff {ℓ κ} :
    {P : Type ℓ} {Q : Type κ} (a b : Bool)
    → (a ≡ true) ↔ P
    → (b ≡ true) ↔ Q
    → ((a && b) ≡ true) ↔ (P × Q)
and_iff a b p q =
    (λ h. let t = (&&_iff a b).0 h in (p.0 t.0, q.0 t.1), λ h. (&&_iff a b).1 (p.1 h.0, q.1 h.1))

pub or_iff {ℓ κ} :
    {P : Type ℓ} {Q : Type κ} (a b : Bool)
    → (a ≡ true) ↔ P
    → (b ≡ true) ↔ Q
    → ((a || b) ≡ true) ↔ (P ⊎ Q)
or_iff true b p q = (λ _. inl (p.0 refl), λ _. refl)
or_iff false b p q = (λ h. inr (q.0 h), λ h. elim h [ inl x ↦ cc (p.1 x) | inr y ↦ q.1 y ])

-- What both answers of a conditional meet, the conditional meets.
pub if-cases {ℓ κ} :
    {A : Type ℓ} (P : A → Type κ) (b : Bool) {x y : A}
    → (b ≡ true → P x)
    → P y
    → P (if b then x else y)
if-cases P true p q = p refl
if-cases P false p q = q

pub &&_left : (a b : Bool) → (a && b) ≡ true → a ≡ true
&&_left a b h = ground arith

instance abbrev pub string_eq : Eq String
string_eq = record { equals = λ s t. str_eq s t; equals_iff = λ s t. eq_iff s t }

instance abbrev pub nat_eq : Eq ℕ
nat_eq = record { equals = λ a b. nat_beq a b; equals_iff = λ a b. nat_beq_iff a b }
