-- ===== src/Whois/Servers.antt =====
-- src/whois.rs: the addresses of servers, written and read.
use Prim.Native.Char.{Char, code}
use Prim.Native.String as S
use text.Mathlib.TextLemmas.{nil-append, cons-append, append-nil}
use dmarc_report_viewer.Common.{
  ℕ, zero, suc, ◌+◌, ◌*◌, ◌-◌, ◌/◌, ◌%◌, ◌<◌, ◌≡◌, refl, ap, ◌∙◌, String, some, [], ◌∷◌, true,
  false, ltb, nat_beq, Bool-cases, inl, inr, arith,
}
use dmarc_report_viewer.Common.Result.{ok}
use dmarc_report_viewer.Common.Text.{is_blank, digit, decimal, to_string, digits_value, parse_u16}
use dmarc_report_viewer.Common.Separators.{Without, Without-append}
use dmarc_report_viewer.Common.Texts.{concat, split_char}
use dmarc_report_viewer.Whois.{from_str, address}

split_char_whole : (sep : ℕ) (s : String) → Without sep s → split_char sep s ≡ s ∷ []
unfolding split_char
split_char_whole sep S.[] h = refl
split_char_whole sep (S.◌∷◌ c s) h =
    let e : nat_beq (code c) sep ≡ false = ground arith in
    rw (e, split_char_whole sep s h.1, split_char) refl

split_char-append :
    (sep : ℕ) (c : Char) (s t : String)
    → code c ≡ sep
    → Without sep s
    → split_char sep (S.◌++◌ s (S.◌∷◌ c t)) ≡ s ∷ split_char sep t
unfolding split_char
split_char-append sep c S.[] t e h =
    let same : nat_beq (code c) sep ≡ true = ground arith in
    rw (nil-append (S.◌∷◌ c t), same, split_char) refl
split_char-append sep c (S.◌∷◌ d s) t e h =
    let differs : nat_beq (code d) sep ≡ false = ground arith in
    rw (cons-append d s (S.◌∷◌ c t), differs, split_char-append sep c s t e h.1, split_char) refl

digits_value-append :
    (s t : String) (acc n : ℕ)
    → digits_value s acc ≡ some n
    → digits_value (S.◌++◌ s t) acc ≡ digits_value t n
unfolding digits_value
digits_value-append S.[] t acc n h = rw (nil-append t) (ap (digits_value t) (some-inj h))
  where
    some-inj : {a b : ℕ} → some a ≡ some b → a ≡ b
    some-inj p = cc
digits_value-append (S.◌∷◌ c s) t acc n h =
    rw (cons-append c s t) (ground (arith, digits_value-append s t (acc * 10 + (code c - 48)) n))

-- What is shown of each of the ten digits
module _ (P : ℕ → Type 0) (all : P 0 × P 1 × P 2 × P 3 × P 4 × P 5 × P 6 × P 7 × P 8 × P 9) where
  ten_digits : (d : ℕ) → d < 10 → P d
  ten_digits zero h = all.0
  ten_digits (suc zero) h = all.1
  ten_digits (suc (suc zero)) h = all.2
  ten_digits (suc (suc (suc zero))) h = all.3
  ten_digits (suc (suc (suc (suc zero)))) h = all.4
  ten_digits (suc (suc (suc (suc (suc zero))))) h = all.5
  ten_digits (suc (suc (suc (suc (suc (suc zero)))))) h = all.6
  ten_digits (suc (suc (suc (suc (suc (suc (suc zero))))))) h = all.7
  ten_digits (suc (suc (suc (suc (suc (suc (suc (suc zero)))))))) h = all.8
  ten_digits (suc (suc (suc (suc (suc (suc (suc (suc (suc zero))))))))) h = all.9
  ten_digits (suc (suc (suc (suc (suc (suc (suc (suc (suc (suc d)))))))))) h = absurd (omega arith)

digits_value-digit : (acc d : ℕ) → d < 10 → digits_value (digit d) acc ≡ some (acc * 10 + d)
unfolding digits_value
digits_value-digit acc d h =
    ten_digits (λ d. digits_value (digit d) acc ≡ some (acc * 10 + d))
      (refl, refl, refl, refl, refl, refl, refl, refl, refl, refl) d h

digits_value-decimal : (fuel n : ℕ) → n < fuel → digits_value (decimal fuel n) 0 ≡ some n
unfolding decimal
digits_value-decimal zero n h = absurd (omega arith)
digits_value-decimal (suc fuel) n h = elim (Bool-cases (ltb n 10)) [
  | inl e ↦ rw (e, decimal) (digits_value-digit 0 n (ground arith) ∙ ap some (omega arith))
  | inr e ↦
      rw (e, decimal)
        (digits_value-append (decimal fuel (n / 10)) (digit (n % 10)) 0 (n / 10)
            (digits_value-decimal fuel (n / 10) (ground arith))
          ∙ digits_value-digit (n / 10) (n % 10) (omega arith)
          ∙ ap some (omega arith))
]

decimal-Without : (fuel n : ℕ) → Without b':' (decimal fuel n)
unfolding decimal
decimal-Without zero n = tt
decimal-Without (suc fuel) n = elim (Bool-cases (ltb n 10)) [
  | inl e ↦ rw (e, decimal) (digit-Without n (ground arith))
  | inr e ↦
      rw (e, decimal)
        (Without-append b':' (decimal fuel (n / 10)) (digit (n % 10))
          (decimal-Without fuel (n / 10)) (digit-Without (n % 10) (omega arith)))
]
  where
    digit-Without : (d : ℕ) → d < 10 → Without b':' (digit d)
    digit-Without d h = ten_digits (λ d. Without b':' (digit d)) (omega arith) d h

is_blank-append : (s t : String) → is_blank t ≡ false → is_blank (S.◌++◌ s t) ≡ false
is_blank-append S.[] t h = rw (nil-append t) h
is_blank-append (S.◌∷◌ c s) t h = rw (cons-append c s t) refl

is_blank-decimal : (fuel n : ℕ) → is_blank (decimal (suc fuel) n) ≡ false
unfolding decimal
is_blank-decimal fuel n = elim (Bool-cases (ltb n 10)) [
  | inl e ↦ rw (e, decimal) (is_blank-digit n (ground arith))
  | inr e ↦
      rw (e, decimal)
        (is_blank-append (decimal fuel (n / 10)) (digit (n % 10))
          (is_blank-digit (n % 10) (omega arith)))
]
  where
    is_blank-digit : (d : ℕ) → d < 10 → is_blank (digit d) ≡ false
    is_blank-digit d h =
        ten_digits (λ d. is_blank (digit d) ≡ false)
          (refl, refl, refl, refl, refl, refl, refl, refl, refl, refl) d h

parse_u16_of_digits :
    (s : String) (n : ℕ)
    → is_blank s ≡ false
    → digits_value s 0 ≡ some n
    → n < 65536
    → parse_u16 s ≡ some n
unfolding parse_u16
parse_u16_of_digits S.[] n b d h = cc
parse_u16_of_digits (S.◌∷◌ c s) n b d h = ground arith

parse_u16-to_string : (n : ℕ) → n < 65536 → parse_u16 (to_string n) ≡ some n
parse_u16-to_string n h =
    parse_u16_of_digits (to_string n) n (is_blank-decimal n n)
      (digits_value-decimal (suc n) n (omega arith)) h

-- A host name without a colon is read as a server with the port 43, and a server with such a name, as it
-- is printed with its port, is read back with that port; the query of both is the plain one.
pub from_str-address :
    (host query : String) (port : ℕ)
    → Without b':' host
    → port < 65536
    → (from_str host ≡ ok (record { host = host; port = 43; query = "$addr\r\n" }))
      × (from_str (address (record { host = host; port = port; query = query }))
          ≡ ok (record { host = host; port = port; query = "$addr\r\n" }))
unfolding from_str address concat
from_str-address host query port h p = (
  rw (split_char_whole b':' host h) refl,
  rw
      (
        printed,
        split_char-append b':' ":" host (to_string port) refl h,
        split_char_whole b':' (to_string port) (decimal-Without (suc port) port),
        parse_u16-to_string port p,
      )
      refl,
)
  where
    printed :
        S.◌++◌ host (S.◌++◌ ":" (S.◌++◌ (to_string port) ""))
        ≡ S.◌++◌ host (S.◌∷◌ ":" (to_string port))
    printed = ap (S.◌++◌ host) (
        cons-append ":" "" (S.◌++◌ (to_string port) "")
        ∙ ap (S.◌∷◌ ":") (nil-append (S.◌++◌ (to_string port) "") ∙ append-nil (to_string port)))
