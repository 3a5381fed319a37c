-- ===== src/DnsClient/Labels.antt =====
-- src/dns_client.rs: names in the label format of RFC 1035.
use dmarc_report_viewer.Common.{
  ℕ, zero, suc, ◌+◌, ◌≤◌, ◌≡◌, ◌≢◌, refl, sym, ap, ◌∙◌, ◌↔◌, String, some, List, [], ◌∷◌, ◌++◌,
  ◌==◌, ltb, length, length-append, nat_eq, false, Bool-cases, Option-cases, inl, inr, arith,
}
use dmarc_report_viewer.Common.Outcome.{done, panicked, >>=-eq-done, done-inj}
use mathlib.Core.Path.{subst}
use dmarc_report_viewer.Common.Texts.{join}
use dmarc_report_viewer.Imap.{split_at}
use dmarc_report_viewer.DnsClient.{DnsEnv, labels_rounds, parse_dns_name}

length-split_at : (n : ℕ) (xs : List ℕ) → length (split_at n xs).1 ≤ length xs
length-split_at zero xs = omega arith
length-split_at (suc n) [] = omega arith
length-split_at (suc n) (x ∷ xs) = omega (arith, length-split_at n xs)

split_at-append : (xs ys : List ℕ) → split_at (length xs) (xs ++ ys) ≡ (xs, ys)
split_at-append [] ys = refl
split_at-append (x ∷ xs) ys = rw (split_at-append xs ys) refl

split_at_lem :
    (n : ℕ) (xs : List ℕ)
    → n ≤ length xs
    → (length (split_at n xs).0 ≡ n) × ((split_at n xs).0 ++ (split_at n xs).1 ≡ xs)
split_at_lem zero xs h = (refl, refl)
split_at_lem (suc n) [] h = absurd (omega arith)
split_at_lem (suc n) (x ∷ xs) h =
    let more = split_at_lem n xs (omega arith) in (ap suc more.0, ap (λ l. x ∷ l) more.1)

module _ (env : DnsEnv) where
  -- `Labels bytes labels`: the bytes are the labels, each after its length, up to a zero or to the end.
  pub data Labels : List ℕ → List String → Type 0 where
    ends : Labels [] []
    stops : (rest : List ℕ) → Labels (0 ∷ rest) []
    label :
        (len : ℕ) (text bytes rest : List ℕ) (name : String) {names : List String}
        → len ≢ 0
        → length text ≡ len
        → env.from_utf8 text ≡ some name
        → bytes ≡ text ++ rest
        → Labels rest names
        → Labels (len ∷ bytes) (name ∷ names)

  Labels-of_rounds :
      (fuel : ℕ) (bytes : List ℕ) (names : List String)
      → labels_rounds env fuel bytes ≡ done names
      → Labels bytes names
  unfolding labels_rounds
  Labels-of_rounds fuel [] names h = subst (Labels []) (done-inj h) ends
  Labels-of_rounds zero (len ∷ rest) names h = absurd (ground arith)
  Labels-of_rounds (suc fuel) (len ∷ rest) names h = elim (Bool-cases (len == 0)) [
    | inl e ↦
        let zero_len : len ≡ 0 = ground arith in
        let none_left : [] ≡ names = done-inj (rw (e, labels_rounds) at h) in
        rw (zero_len) (subst (Labels (0 ∷ rest)) none_left (stops rest))
    | inr e ↦ elim (Bool-cases (ltb (length rest) len)) [
      | inl l ↦ absurd (ground arith)
      | inr l ↦ elim (Option-cases (env.from_utf8 (split_at len rest).0)) [
        | inl u ↦ absurd (ground arith)
        | inr (name, u) ↦
            let (more, q, r) = >>=-eq-done _ _ (rw (e, l, u, labels_rounds) at h) in
            let within : len ≤ length rest = ground arith in
            subst (Labels (len ∷ rest)) (done-inj r) (
              label len (split_at len rest).0 rest (split_at len rest).1 name (ground arith)
                (split_at_lem len rest within).0 u (sym (split_at_lem len rest within).1)
                (Labels-of_rounds fuel (split_at len rest).1 more q))
      ]
    ]
  ]

  rounds_of_Labels :
      (fuel : ℕ) {bytes : List ℕ} {names : List String}
      → length bytes ≤ fuel
      → Labels bytes names
      → labels_rounds env fuel bytes ≡ done names
  unfolding labels_rounds
  rounds_of_Labels fuel h ends = refl
  rounds_of_Labels zero h (stops rest) = absurd (omega arith)
  rounds_of_Labels (suc fuel) h (stops rest) = refl
  rounds_of_Labels zero h (label len text bytes rest name n l u e more) = absurd (omega arith)
  rounds_of_Labels (suc fuel) h (label len text bytes rest name n l u e more) =
      let cut : split_at len bytes ≡ (text, rest) = rw (← l, e) (split_at-append text rest) in
      let size : length bytes ≡ length text + length rest = ap length e ∙ length-append text rest in
      let nonzero : (len == 0) ≡ false = ground arith in
      let within : ltb (length bytes) len ≡ false = ground arith in
      rw (nonzero, within, cut, u, labels_rounds)
        (rw (rounds_of_Labels fuel (omega arith) more) refl)

  rounds-ne-panicked :
      (fuel : ℕ) (bytes : List ℕ) → length bytes ≤ fuel → labels_rounds env fuel bytes ≢ panicked
  unfolding labels_rounds
  rounds-ne-panicked fuel [] h = λ p. cc
  rounds-ne-panicked zero (len ∷ rest) h = absurd (omega arith)
  rounds-ne-panicked (suc fuel) (len ∷ rest) h =
      ground (arith, rounds-ne-panicked fuel (split_at len rest).1, length-split_at len rest)

  -- A name always comes or an error, never a panic: the rounds are enough. The bytes of a record are read
  -- as a name exactly if they are labels, each after its length, up to a zero byte or to the end, and
  -- every label is UTF-8; the name is the labels with dots between them.
  pub parse_dns_name_iff :
      (bytes : List ℕ) (name : String)
      → (parse_dns_name env bytes ≢ panicked)
        × ((parse_dns_name env bytes ≡ done name)
            ↔ ((labels : List String) × Labels bytes labels × (name ≡ join "." labels)))
  unfolding parse_dns_name
  parse_dns_name_iff bytes name = (
    ground (arith, rounds-ne-panicked (length bytes) bytes),
    (
      λ h.
          let (labels, q, r) = >>=-eq-done (labels_rounds env (length bytes) bytes) _ h in
          (labels, Labels-of_rounds (length bytes) bytes labels q, sym (done-inj r)),
      λ (labels, l, e). rw (rounds_of_Labels (length bytes) (omega arith) l, e) refl,
    ),
  )
