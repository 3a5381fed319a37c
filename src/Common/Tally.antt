-- ===== src/Common/Tally.antt =====
-- Counters in a map: `if let Some(entry) = map.get_mut(k) { *entry += n } else { map.insert(k, n) }`.
use Prim.Native.Nat.{ℕ, ◌+◌, ◌%◌}
use mathlib.Core.Path.{◌≡◌, refl, ap, sym, ◌∙◌}
use mathlib.Core.Bool.{Bool, false}
use mathlib.Core.Logic.{inl, inr}
use mathlib.Core.Option.{none, some}
use mathlib.Core.List.{List, [], ◌∷◌, ◌++◌, foldl, map}
use native.Mathlib.Omega.{arith}
use dmarc_report_viewer.Common.Tests.{
  Eq, ◌==◌, if◌then◌else◌, Option-cases, is_none, add_u64, add_u64_lem, u64_mod,
}
use dmarc_report_viewer.Common.Lists.{any, flat_map}
use dmarc_report_viewer.Common.Map.{get, insert, get-insert}

module _ {ℓ} {K : Type ℓ} ⦃e : Eq K⦄ where
  unfoldable pub add : K → ℕ → List (K × ℕ) → List (K × ℕ)
  add k n m = elim (get k m) [ some v ↦ insert k (add_u64 v n) m | none ↦ insert k n m ]

  -- One addition after the other.
  unfoldable pub tally : List (K × ℕ) → List (K × ℕ) → List (K × ℕ)
  tally [] m = m
  tally ((k, n) ∷ events) m = tally events (add k n m)

  -- The counter of a key, 0 if there is none.
  abbrev pub total : K → List (K × ℕ) → ℕ
  total k m = elim (get k m) [ some v ↦ v | none ↦ 0 ]

  -- The sum of the events of a key.
  unfoldable pub weight : K → List (K × ℕ) → ℕ
  weight k [] = 0
  weight k ((j, n) ∷ events) = (if j == k then n else 0) + weight k events

  -- Whether a key has an event.
  abbrev pub counted : K → List (K × ℕ) → Bool
  counted k events = any (λ d. d.0 == k) events

  total-add :
      (k j : K) (n : ℕ) (m : List (K × ℕ))
      → total j (add k n m) % u64_mod ≡ (total j m + (if k == j then n else 0)) % u64_mod
  unfolding add
  total-add k j n m = elim (Option-cases (get k m)) [
    | inl h ↦ ground (arith, get-insert k j n m, e.equals_iff k j)
    | inr (v, h) ↦ ground (arith, get-insert k j (add_u64 v n) m, e.equals_iff k j, add_u64_lem v n)
  ]

  -- A counter is the sum of the events of its key, modulo the word size.
  pub total-tally :
      (k : K) (events m : List (K × ℕ))
      → total k (tally events m) % u64_mod ≡ (total k m + weight k events) % u64_mod
  unfolding tally weight
  total-tally k [] m = omega arith
  total-tally k ((j, n) ∷ events) m =
      omega (arith, total-tally k events (add j n m), total-add j k n m)

  -- Counters that start with an empty map
  pub total-tally-nil :
      (k : K) (events : List (K × ℕ))
      → total k (tally events []) % u64_mod ≡ weight k events % u64_mod
  unfolding get
  total-tally-nil k events = omega (arith, total-tally k events [])

  present-add :
      (k j : K) (n : ℕ) (m : List (K × ℕ))
      → is_none (get j (add k n m)) ≡ (if k == j then false else is_none (get j m))
  unfolding add
  present-add k j n m = elim (Option-cases (get k m)) [
    | inl h ↦ ground (arith, get-insert k j n m)
    | inr (v, h) ↦ ground (arith, get-insert k j (add_u64 v n) m)
  ]

  -- A key has a counter exactly when it had one or has an event.
  pub present-tally :
      (k : K) (events m : List (K × ℕ))
      → is_none (get k (tally events m)) ≡ (if counted k events then false else is_none (get k m))
  unfolding tally any
  present-tally k [] m = refl
  present-tally k ((j, n) ∷ events) m =
      ground (arith, present-tally k events (add j n m), present-add j k n m)

  pub tally-append : (xs ys m : List (K × ℕ)) → tally (xs ++ ys) m ≡ tally ys (tally xs m)
  unfolding tally
  tally-append [] ys m = refl
  tally-append ((k, n) ∷ xs) ys m = tally-append xs ys (add k n m)

  -- A loop whose every round counts some events in one of its maps counts all of them.
  pub fold-tally {κ μ} :
      {S : Type κ} {X : Type μ} (step : S → X → S) (counters : S → List (K × ℕ))
      (events : X → List (K × ℕ))
      → ((s : S) (x : X) → counters (step s x) ≡ tally (events x) (counters s))
      → (xs : List X) (s : S) → counters (foldl step s xs) ≡ tally (flat_map events xs) (counters s)
  unfolding tally
  fold-tally step counters events h [] s = refl
  fold-tally step counters events h (x ∷ xs) s =
      fold-tally step counters events h xs (step s x)
      ∙ ap (tally (flat_map events xs)) (h s x)
      ∙ sym (tally-append (events x) (flat_map events xs) (counters s))

  -- The loop that adds the same number for the key of each element.
  unfoldable pub add_each {κ} : {X : Type κ} → (X → K) → ℕ → List X → List (K × ℕ) → List (K × ℕ)
  add_each key n [] m = m
  add_each key n (x ∷ xs) m = add_each key n xs (add (key x) n m)

  pub add_each-eq-tally {κ} :
      {X : Type κ} (key : X → K) (n : ℕ) (xs : List X) (m : List (K × ℕ))
      → add_each key n xs m ≡ tally (map (λ x. (key x, n)) xs) m
  unfolding add_each tally
  add_each-eq-tally key n [] m = refl
  add_each-eq-tally key n (x ∷ xs) m = add_each-eq-tally key n xs (add (key x) n m)

  pub tally-one : (k : K) (n : ℕ) (m : List (K × ℕ)) → tally ((k, n) ∷ []) m ≡ add k n m
  unfolding tally
  tally-one k n m = refl

  pub tally-nil : (m : List (K × ℕ)) → tally [] m ≡ m
  unfolding tally
  tally-nil m = refl
