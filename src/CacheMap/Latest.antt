-- ===== src/CacheMap/Latest.antt =====
-- src/cache_map.rs: a cache into which no key is inserted twice holds the latest insertions.
use dmarc_report_viewer.Common.{
  ℕ, zero, suc, ◌+◌, ◌-◌, ◌<◌, ◌≤◌, ◌≡◌, refl, sym, ap, ◌∙◌, arith, Eq, length, leb, List, [], ◌∷◌,
  ◌++◌, none, false, true, is_none, length-append, u64_mod, Bool-cases, inl, inr,
}
use mathlib.Core.List.{append_assoc, append-nil}
use mathlib.Core.Path.{subst}
use dmarc_report_viewer.Common.Map
use dmarc_report_viewer.Common.Map.{remove}
use dmarc_report_viewer.Common.Map.Keys.{IsDistinct, remove_absent}
use dmarc_report_viewer.Common.Result.{ok}
use dmarc_report_viewer.CacheMap.{CacheMap, new, get}
use dmarc_report_viewer.CacheMap.Fifo.{push}
use dmarc_report_viewer.CacheMap.Runs.{insert_all, fifo, get-fifo}

unfoldable pub drop {ℓ} : {A : Type ℓ} → ℕ → List A → List A
drop zero xs = xs
drop (suc n) [] = []
drop (suc n) (x ∷ xs) = drop n xs

module _ {ℓ κ} {K : Type ℓ} {V : Type κ} ⦃e : Eq K⦄ where
  -- A key that stands in a list is found.
  is_none-get-middle :
      (k : K) (v : V) (q more : List (K × V)) → is_none (Map.get k (q ++ (k, v) ∷ more)) ≡ false
  unfolding Map.get
  is_none-get-middle k v [] more = ground (arith, e.equals_iff k k)
  is_none-get-middle k v ((j, w) ∷ q) more = ground (arith, is_none-get-middle k v q more)

  absent :
      (k : K) (v : V) (q more : List (K × V)) → IsDistinct (q ++ (k, v) ∷ more) → Map.get k q ≡ none
  unfolding Map.get
  absent k v [] more d = refl
  absent k v ((j, w) ∷ q) more d =
      ground (arith, d.0, e.equals_iff j k, is_none-get-middle k v q more, absent k v q more d.1)

  -- A key that is not there goes to the end; a full queue drops its head.
  push-room :
      (n : ℕ) (k : K) (v : V) (q : List (K × V))
      → length q < n
      → Map.get k q ≡ none
      → push n k v q ≡ q ++ (k, v) ∷ []
  push-room n k v q room a =
      let b : leb n (length q) ≡ false = ground arith in rw (b, remove_absent k q a) refl

  push-full :
      (n : ℕ) (k : K) (v : V) (x : K × V) (q : List (K × V))
      → n ≤ suc (length q)
      → Map.get k q ≡ none
      → push n k v (x ∷ q) ≡ q ++ (k, v) ∷ []
  push-full n k v x q full a =
      let b : leb n (suc (length q)) ≡ true = ground arith in rw (b, remove_absent k q a) refl

  -- While calls are put in at the end, what the queue has dropped are the first ones.
  fifo-drop :
      (n : ℕ) (calls q : List (K × V))
      → length q ≤ n
      → 0 < n
      → IsDistinct (q ++ calls)
      → fifo n q calls ≡ drop (length q + length calls - n) (q ++ calls)
  unfolding fifo drop Map.get
  fifo-drop n [] q h p d =
      let none_left : length q + 0 - n ≡ 0 = omega arith in rw (none_left, append-nil q) refl
  fifo-drop n ((k, v) ∷ calls) [] h p d =
      let sum : 0 + suc (length calls) - n ≡ 1 + length calls - n = omega arith in
      rw (push-room n k v [] p refl, sum) (fifo-drop n calls ((k, v) ∷ []) (omega arith) p d)
  fifo-drop n ((k, v) ∷ calls) (x ∷ q) h p d =
      let more = q ++ (k, v) ∷ [] in
      let joined : (q ++ (k, v) ∷ []) ++ calls ≡ q ++ (k, v) ∷ calls =
        append_assoc q ((k, v) ∷ []) calls in
      let long = length-append q ((k, v) ∷ []) in
      let gone = absent k v (x ∷ q) calls d in
      elim (Bool-cases (leb n (suc (length q)))) [
        | inl full ↦
            let size : length q + 1 ≡ n = ground arith in
            let dropped : suc (length q) + suc (length calls) - n
                ≡ suc (length more + length calls - n) =
              omega (arith, long) in
            rw (push-full n k v x q (ground arith) (absent k v q calls d.1), dropped, ← joined)
              (fifo-drop n calls more (omega (arith, long)) p (subst IsDistinct (sym joined) d.1))
        | inr room ↦
            let small : suc (length q) < n = ground arith in
            let kept : suc (length q) + suc (length calls) - n
                ≡ length (x ∷ more) + length calls - n =
              omega (arith, long) in
            rw (push-room n k v (x ∷ q) (ground arith) gone, kept, ← joined)
              (fifo-drop n calls (x ∷ more) (omega (arith, long)) p
                (subst (λ m. IsDistinct (x ∷ m)) (sym joined) d))
      ]

  -- After insertions of keys into a new cache of `n` entries, no key twice and fewer than the counter can
  -- number, every lookup answers exactly what the last `n` of the insertions put in.
  pub get-insert_all :
      (n : ℕ) (calls : List (K × V)) (k : K) {c : CacheMap K V}
      → new n ≡ ok c
      → length calls < u64_mod
      → IsDistinct calls
      → get (insert_all c calls) k ≡ Map.get k (drop (length calls - n) calls)
  unfolding new
  get-insert_all n calls k {c} made room d =
      let positive : 0 < n = ground arith in
      let sum : 0 + length calls - n ≡ length calls - n = omega arith in
      get-fifo n calls k made room
      ∙ ap (Map.get k) (fifo-drop n calls [] (omega arith) positive d)
      ∙ ap (λ j. Map.get k (drop j calls)) sum
