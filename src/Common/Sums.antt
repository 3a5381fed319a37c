-- ===== src/Common/Sums.antt =====
-- Sums over lists, and loops whose every round adds something to one number.
use Prim.Native.Nat.{ℕ, ◌+◌, ◌%◌}
use mathlib.Core.Path.{◌≡◌}
use mathlib.Core.Bool.{Bool, ◌||◌}
use mathlib.Core.List.{List, [], ◌∷◌, foldl}
use native.Mathlib.Omega.{arith}
use dmarc_report_viewer.Common.Tests.{u64_mod}
use dmarc_report_viewer.Common.Lists.{any}

unfoldable pub sum {ℓ} : {A : Type ℓ} → (A → ℕ) → List A → ℕ
sum f [] = 0
sum f (x ∷ xs) = f x + sum f xs

pub foldl-sum {ℓ κ} :
    {S : Type ℓ} {A : Type κ} (step : S → A → S) (measure : S → ℕ) (amount : A → ℕ)
    → ((s : S) (a : A) → measure (step s a) % u64_mod ≡ (measure s + amount a) % u64_mod)
    → (xs : List A) (s : S)
    → measure (foldl step s xs) % u64_mod ≡ (measure s + sum amount xs) % u64_mod
unfolding sum
foldl-sum step measure amount h [] s = omega arith
foldl-sum step measure amount h (x ∷ xs) s =
    omega (arith, foldl-sum step measure amount h xs (step s x), h s x)

-- What every round of a loop keeps, the loop keeps.
pub foldl-keeps {ℓ κ μ} :
    {S : Type ℓ} {A : Type κ} (P : S → Type μ) (step : S → A → S)
    → ((s : S) (a : A) → P s → P (step s a))
    → (xs : List A) (s : S) → P s
    → P (foldl step s xs)
foldl-keeps P step h [] s p = p
foldl-keeps P step h (x ∷ xs) s p = foldl-keeps P step h xs (step s x) (h s x p)

-- A loop each round of which may find something
pub foldl-any {ℓ κ} :
    {S : Type ℓ} {A : Type κ} (step : S → A → S) (found : S → Bool) (finds : A → Bool)
    → ((s : S) (a : A) → found (step s a) ≡ (found s || finds a))
    → (xs : List A) (s : S) → found (foldl step s xs) ≡ (found s || any finds xs)
unfolding any
foldl-any step found finds h [] s = ground arith
foldl-any step found finds h (x ∷ xs) s =
    ground (arith, foldl-any step found finds h xs (step s x), h s x)
