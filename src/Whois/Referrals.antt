-- ===== src/Whois/Referrals.antt =====
-- src/whois.rs: the chain of servers that a lookup asks.
use dmarc_report_viewer.Common.{
  ℕ, zero, suc, ◌+◌, ◌≤◌, ◌≡◌, ◌≢◌, refl, ap, ◌∙◌, ◌⊎◌, inl, inr, String, Option, none, some, List,
  [], ◌∷◌, ◌++◌, false, ◌==◌, string_eq, length, length-append, arith, Bool-cases, Option-cases,
}
use dmarc_report_viewer.Common.Result.{Result, ok, err, Result-cases}
use dmarc_report_viewer.Whois.{
  Server, AddrTextPair, WhoisEnv, default_server, max_follows, from_str, address, lookup_once,
  follow_referrals, lookup_iterative, lookup,
}

module _ (env : WhoisEnv) (ip : String) where
  -- `Referred n asked pair`: after `n` referrals the servers of `asked` are asked, the last of them
  -- answered `pair`, and each but the first was named by the answer before it.
  pub data Referred : ℕ → List String → AddrTextPair → Type 0 where
    first :
        (server : Server) (pair : AddrTextPair)
        → server ≡ default_server
        → lookup_once env ip [] server ≡ ok pair
        → Referred 0 (address server ∷ []) pair
    refer :
        {n : ℕ} {asked : List String} {pair : AddrTextPair} (addr : String) (server : Server)
        (next : AddrTextPair)
        → Referred n asked pair
        → env.captures pair.text ≡ some (some addr)
        → addr ≢ pair.server_addr
        → from_str addr ≡ ok server
        → lookup_once env ip asked server ≡ ok next
        → Referred (suc n) (asked ++ (address server ∷ [])) next

  -- An answer that refers to no other server: it names none, or the server it came from.
  abbrev pub Settled : AddrTextPair → Type 0
  Settled pair =
      (addr : String) → env.captures pair.text ≡ some (some addr) → addr ≡ pair.server_addr

  -- What a lookup comes to: a text is the answer of the last server of a chain of at most
  -- `max_follows` referrals, and that answer refers to no other server unless the bound is reached.
  pub record IsAnswer (text : String) (asked : List String) : Type 0 where
    pub count : ℕ
    pub pair : AddrTextPair
    pub bounded : count ≤ max_follows
    pub referred : Referred count asked pair
    pub ended : (count ≡ max_follows) ⊎ Settled pair
    pub is_text : text ≡ pair.text

  abbrev pub IsGood : Result String × List String → Type 0
  IsGood (answer, asked) =
      (length asked ≤ suc max_follows) × ((text : String) → answer ≡ ok text → IsAnswer text asked)

  length-Referred :
      {n : ℕ} {asked : List String} {pair : AddrTextPair}
      → Referred n asked pair
      → length asked ≡ suc n
  length-Referred (first server pair d h) = refl
  length-Referred (refer {asked = asked} addr server next r c d f l) =
      omega (arith, length-append asked (address server ∷ []), length-Referred r)

  -- The loop ends with an answer here.
  stop :
      (n : ℕ) (asked : List String) (pair : AddrTextPair)
      → n ≤ max_follows
      → Referred n asked pair
      → (n ≡ max_follows) ⊎ Settled pair
      → IsGood (ok pair.text, asked)
  stop n asked pair b r e = (
    omega (arith, length-Referred r),
    λ text h. record { count = n; pair = pair; bounded = b; referred = r; ended = e; is_text = cc },
  )

  -- The loop ends with an error.
  broken :
      (message : String) (asked : List String)
      → length asked ≤ suc max_follows
      → IsGood (err message, asked)
  broken message asked b = (b, λ text h. cc)

  follow_referrals-IsGood :
      (follow n : ℕ) (asked : List String) (pair : AddrTextPair)
      → n + follow ≡ max_follows
      → Referred n asked pair
      → IsGood (follow_referrals env ip follow asked pair)
  unfolding follow_referrals
  follow_referrals-IsGood zero n asked pair b r =
      stop n asked pair (omega arith) r (inl (omega arith))
  follow_referrals-IsGood (suc follow) n asked pair b r =
      elim (Option-cases (env.captures pair.text)) [
        | inl e ↦ rw (e, follow_referrals) (stop n asked pair (omega arith) r (inr (λ addr h. cc)))
        | inr (none, e) ↦
            rw (e, follow_referrals) (stop n asked pair (omega arith) r (inr (λ addr h. cc)))
        | inr (some addr, e) ↦ elim (Bool-cases (addr == pair.server_addr)) [
          | inl same ↦
              rw (e, same, follow_referrals)
                (stop n asked pair (omega arith) r (
                  inr (λ other h.
                    (some-inj h e) ∙ (string_eq.equals_iff addr pair.server_addr).0 same)))
          | inr differs ↦ elim (Result-cases (from_str addr)) [
            | inr (m, f) ↦
                rw (e, differs, f, follow_referrals)
                  (broken _ asked (omega (arith, length-Referred r)))
            | inl (server, f) ↦ elim (Result-cases (lookup_once env ip asked server)) [
              | inr (m, l) ↦
                  rw (e, differs, f, l, follow_referrals)
                    (broken _ (asked ++ (address server ∷ []))
                      (omega (arith, length-Referred r, length-append asked (address server ∷ []))))
              | inl (next, l) ↦
                  rw (e, differs, f, l, follow_referrals)
                    (follow_referrals-IsGood follow (suc n) (asked ++ (address server ∷ [])) next
                      (omega arith)
                      (refer addr server next r e
                        (ground (arith, string_eq.equals_iff addr pair.server_addr)) f l))
            ]
          ]
        ]
      ]
    where
      some-inj :
          {a b : String} {o : Option (Option String)}
          → o ≡ some (some a)
          → o ≡ some (some b)
          → a ≡ b
      some-inj p q = cc

  -- A lookup asks four servers at most, the default one first. Its text is the answer of the last of them,
  -- each of them but the first was named by the answer of the one before, and the last answer names no
  -- server but its own, unless it is the fourth.
  pub lookup_lem : IsGood (lookup env ip)
  unfolding lookup lookup_iterative
  lookup_lem = elim (Result-cases (lookup_once env ip [] default_server)) [
    | inr (m, l) ↦ rw (l, lookup_iterative) (broken _ (address default_server ∷ []) (omega arith))
    | inl (pair, l) ↦
        rw (l, lookup_iterative)
          (follow_referrals-IsGood max_follows 0 (address default_server ∷ []) pair refl
            (first default_server pair refl l))
  ]

abbrev pub arin : String → AddrTextPair
arin text = record { server_addr = "whois.arin.net:43"; text = text }

-- The server that a referral to `whois.arin.net` stands for
abbrev pub referred_arin : Server
referred_arin = record { host = "whois.arin.net"; port = 43; query = "$addr\r\n" }

is_read : from_str "whois.arin.net" ≡ ok referred_arin
unfolding from_str
is_read = refl

differs : ◌==◌ {A = String} "whois.arin.net" "whois.arin.net:43" ≡ false
differs = refl

is_printed : address referred_arin ≡ "whois.arin.net:43"
unfolding address
is_printed = refl

is_default : address default_server ≡ "whois.arin.net:43"
unfolding address default_server
is_default = refl

follow_step :
    (env : WhoisEnv) (ip : String) (follow : ℕ) (asked : List String) (pair next : AddrTextPair)
    (addr : String) (server : Server)
    → env.captures pair.text ≡ some (some addr)
    → (addr == pair.server_addr) ≡ false
    → from_str addr ≡ ok server
    → lookup_once env ip asked server ≡ ok next
    → follow_referrals env ip (suc follow) asked pair
      ≡ follow_referrals env ip follow (asked ++ (address server ∷ [])) next
unfolding follow_referrals
follow_step env ip follow asked pair next addr server c d f l =
    rw (c, d, f, l, follow_referrals) refl

module _ (env : WhoisEnv) (ip t : String)
    (answers : (asked : List String) → lookup_once env ip asked referred_arin ≡ ok (arin t)) where
  follow_arin :
      (follow : ℕ) (asked : List String) (text : String)
      → env.captures text ≡ some (some "whois.arin.net")
      → follow_referrals env ip (suc follow) asked (arin text)
        ≡ follow_referrals env ip follow (asked ++ ("whois.arin.net:43" ∷ [])) (arin t)
  follow_arin follow asked text h =
      follow_step env ip follow asked (arin text) (arin t) "whois.arin.net" referred_arin h differs
        is_read (answers asked)
      ∙ ap (λ a. follow_referrals env ip follow (asked ++ (a ∷ [])) (arin t)) is_printed

  -- A server that names itself without the port is not seen to be the same, since its own address has
  -- the port: when `whois.arin.net` always answers with a referral to `whois.arin.net`, it is asked four
  -- times.
  pub lookup-self_referral :
      (before : String)
      → lookup_once env ip [] default_server ≡ ok (arin before)
      → env.captures before ≡ some (some "whois.arin.net")
      → env.captures t ≡ some (some "whois.arin.net")
      → lookup env ip ≡ (
        ok t,
        "whois.arin.net:43" ∷ "whois.arin.net:43" ∷ "whois.arin.net:43" ∷ "whois.arin.net:43" ∷ [],
      )
  unfolding lookup lookup_iterative
  lookup-self_referral before l c c' =
      rw (l, lookup_iterative)
        (ap (λ a. follow_referrals env ip max_follows (a ∷ []) (arin before)) is_default
          ∙ follow_arin 2 _ before c
          ∙ follow_arin 1 _ t c'
          ∙ follow_arin 0 _ t c')
