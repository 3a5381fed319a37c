-- ===== src/Imap/Chunks.antt =====
-- src/imap.rs: how the bodies of the mails are asked for.
use dmarc_report_viewer.Common.{
  ℕ, zero, suc, ◌≤◌, ◌<◌, ◌≡◌, refl, ap, ◌∙◌, List, [], ◌∷◌, ◌++◌, length, All, flat_map, arith,
}
use dmarc_report_viewer.Imap.{chunks, chunk_rounds, split_at}

-- The chunks of some IDs, one after the other, are the IDs, and none has more than `size`.
split_at-append : {A : Type 0} (n : ℕ) (xs : List A) → (split_at n xs).0 ++ (split_at n xs).1 ≡ xs
split_at-append zero xs = refl
split_at-append (suc n) [] = refl
split_at-append (suc n) (x ∷ xs) = ap (λ l. x ∷ l) (split_at-append n xs)

split_at-rest : {A : Type 0} (n : ℕ) (xs : List A) → length (split_at n xs).1 ≤ length xs
split_at-rest zero xs = omega arith
split_at-rest (suc n) [] = omega arith
split_at-rest (suc n) (x ∷ xs) = omega (arith, split_at-rest n xs)

split_at-first : {A : Type 0} (n : ℕ) (xs : List A) → length (split_at n xs).0 ≤ n
split_at-first zero xs = omega arith
split_at-first (suc n) [] = omega arith
split_at-first (suc n) (x ∷ xs) = omega (arith, split_at-first n xs)

chunk_rounds_lem :
    {A : Type 0} (fuel size : ℕ) (xs : List A)
    → length xs ≤ fuel
    → (flat_map (λ c. c) (chunk_rounds fuel (suc size) xs) ≡ xs)
      × All (λ c. length c ≤ suc size) (chunk_rounds fuel (suc size) xs)
unfolding chunk_rounds
chunk_rounds_lem zero size [] h = (refl, tt)
chunk_rounds_lem zero size (x ∷ xs) h = absurd (omega (arith, h))
chunk_rounds_lem (suc fuel) size [] h = (refl, tt)
chunk_rounds_lem (suc fuel) size (x ∷ xs) h =
    let rest =
      chunk_rounds_lem fuel size (split_at size xs).1 (omega (arith, split_at-rest size xs)) in
    (
      ap (λ l. x ∷ ((split_at size xs).0 ++ l)) rest.0 ∙ ap (λ l. x ∷ l) (split_at-append size xs),
      (omega (arith, split_at-first size xs), rest.1),
    )

-- With a chunk size of one or more, the chunks of a list of mail IDs put together are the list, so
-- every mail is asked for once, and no chunk is larger than the chunk size.
pub chunks_lem :
    {A : Type 0} (size : ℕ) (ids : List A)
    → 0 < size
    → (flat_map (λ c. c) (chunks size ids) ≡ ids) × All (λ c. length c ≤ size) (chunks size ids)
chunks_lem zero ids h = absurd (omega (arith, h))
chunks_lem (suc size) ids h = chunk_rounds_lem (length ids) size ids (omega arith)
