-- ===== src/CacheMap.antt =====
-- src/cache_map.rs: a map that keeps up to `max_size` entries and deletes the oldest one.
pub mod Bounds
pub mod Oldest
pub mod Ascending
pub mod Fifo
pub mod Runs
pub mod Latest
pub mod Entries
use dmarc_report_viewer.Common.{
  ℕ, String, ◌≡◌, refl, Option, none, some, List, [], ◌∷◌, Eq, length, ltb, leb, if◌then◌else◌,
  add_u64,
}
use mathlib.Core.Option
use dmarc_report_viewer.Common.Map
use dmarc_report_viewer.Common.Result.{Result, ok, err}

pub record Entry {ℓ} (T : Type ℓ) : Type ℓ where
  pub inserted : ℕ
  pub value : T

pub record CacheMap {ℓ κ} (K : Type ℓ) (V : Type κ) : Type (ℓ ⊔ κ) where
  pub map : List (K × Entry V)
  pub max_size : ℕ
  pub counter : ℕ

module _ {ℓ κ} {K : Type ℓ} {V : Type κ} where
  unfoldable pub new : ℕ → Result (CacheMap K V)
  new max_size =
      if leb 1 max_size
      then ok (record { map = []; max_size = max_size; counter = 0 })
      else err "max_size needs to be one or bigger"

  -- `min_by` on the stamps of the entries: the first of the smallest
  unfoldable pub oldest : List (K × Entry V) → Option (K × Entry V)
  oldest [] = none
  oldest ((k, x) ∷ m) = elim (oldest m) [
    | none ↦ some (k, x)
    | some (j, y) ↦ if ltb y.inserted x.inserted then some (j, y) else some (k, x)
  ]

module _ {ℓ κ} {K : Type ℓ} {V : Type κ} ⦃e : Eq K⦄ where
  unfoldable pub get : CacheMap K V → K → Option V
  get c key = Option.map (λ x. x.value) (Map.get key c.map)

  unfoldable pub prune : CacheMap K V → CacheMap K V
  prune c = elim (oldest c.map) [ none ↦ c | some (k, x) ↦ record c { map = Map.remove k c.map } ]

  unfoldable pub make_room : CacheMap K V → CacheMap K V
  make_room c = if leb c.max_size (length c.map) then prune c else c

  unfoldable pub insert : CacheMap K V → K → V → CacheMap K V
  insert c key value =
      let d = make_room c in
      record d {
        map = Map.insert key (record { inserted = d.counter; value = value }) d.map;
        counter = add_u64 d.counter 1;
      }
