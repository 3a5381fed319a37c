-- ===== src/Mail/Decode.antt =====
-- src/mail.rs: MIME encoded words in subjects. The regular expression, Base64 and the character sets
-- are other libraries' (`regex`, `base64`, `encoding_rs`).
pub mod Panics
use Prim.Native.Char.{code, len_utf8}
use Prim.Native.String as S
use dmarc_report_viewer.Common.{
  ℕ, zero, suc, ◌+◌, ◌*◌, ◌-◌, String, ◌≡◌, refl, Option, none, some, List, [], ◌∷◌, ◌++◌, Bool,
  true, false, ◌&&◌, ◌==◌, ltb, leb, if◌then◌else◌, string_eq, nat_eq,
}
use dmarc_report_viewer.Common.Outcome.{
  Outcome, done, failed, panicked, ◌>>=◌, demand, attempt, with_context,
}
use dmarc_report_viewer.Common.Texts.{as_bytes, concat, replace}
use dmarc_report_viewer.Common.Result.{Result}

abbrev pub hex_digit : ℕ → Option ℕ
hex_digit c =
    if leb 48 c && leb c 57
    then some (c - 48)
    else if leb 65 c && leb c 70
    then some (c - 55)
    else if leb 97 c && leb c 102
    then some (c - 87)
    else none

-- `u8::from_str_radix(hex, 16)` at a text of two bytes: two digits, or a plus sign and one digit
abbrev pub from_hex : List ℕ → Option ℕ
from_hex (a ∷ b ∷ []) = elim (hex_digit b) [
  | none ↦ none
  | some low ↦ elim (hex_digit a) [
    | some high ↦ some (high * 16 + low)
    | none ↦ if a == 43 then some low else none
  ]
]
from_hex bytes = none

abbrev push : ℕ → Outcome (List ℕ) → Outcome (List ℕ)
push byte (done bytes) = done (byte ∷ bytes)
push byte (failed e) = failed e
push byte panicked = panicked

abbrev short : String
short = "The equal character must be followed by two hex characters"

abbrev no_hex : String
no_hex = "Expected valid hex string but found something else"

-- A character of two bytes or more after an equal sign: `[1..3]` is it, or ends inside of it.
abbrev pub wide_escaped : ℕ → Outcome (List ℕ)
wide_escaped width = if width == 2 then failed no_hex else panicked

-- A character of any width after an equal sign, when it is the last of the text
abbrev pub last_escaped : ℕ → Outcome (List ℕ)
last_escaped width = if ltb width 2 then failed short else wide_escaped width

-- A slice `[1..]` after the first character panics unless that has one byte, and `[1..3]` are the
-- two characters after an equal sign if both have one byte.
unfoldable pub q_decode : String → Outcome (List ℕ)
q_decode S.[] = done []
q_decode (S.◌∷◌ c S.[]) =
    if code c == 95
    then done (32 ∷ [])
    else if code c == 61
    then failed short
    else if len_utf8 c == 1
    then done (code c ∷ [])
    else panicked
q_decode (S.◌∷◌ c (S.◌∷◌ d S.[])) =
    let rest = q_decode (S.◌∷◌ d S.[]) in
    if code c == 95
    then push 32 rest
    else if code c == 61
    then last_escaped (len_utf8 d)
    else if len_utf8 c == 1
    then push (code c) rest
    else panicked
q_decode (S.◌∷◌ c (S.◌∷◌ d (S.◌∷◌ e text))) =
    let rest = q_decode (S.◌∷◌ d (S.◌∷◌ e text)) in
    let after = q_decode text in
    if code c == 95
    then push 32 rest
    else if code c == 61
    then if len_utf8 d == 1
      then if len_utf8 e == 1
        then demand (from_hex (code d ∷ code e ∷ [])) no_hex >>= (λ value. push value after)
        else panicked
      else wide_escaped (len_utf8 d)
    else if len_utf8 c == 1
    then push (code c) rest
    else panicked

-- What the decoder of words takes from other libraries, and from the Unicode tables
pub record DecodeEnv : Type 0 where
  pub to_lowercase : String → String
  pub base64 : String → Result (List ℕ)
  pub for_label : List ℕ → Option (List ℕ → String)
  pub captures : String → List (String × String × String × String)

module _ (env : DecodeEnv) where
  unfoldable pub decode_word : String → String → String → Outcome String
  unfolding q_decode
  decode_word charset encoding text =
      let label = env.to_lowercase charset in
      let kind = env.to_lowercase encoding in
      (if kind == "b"
        then attempt (env.base64 text) "Failed to decode Base64 data"
        else if kind == "q"
        then with_context (q_decode text) "Failed to decode Q data"
        else failed (concat ("Unsupported encoding: " ∷ kind ∷ [])))
      >>= λ decoded. elim (env.for_label (as_bytes label)) [
        | some decode ↦ done (decode decoded)
        | none ↦ failed (concat ("Unsupported charset: " ∷ label ∷ []))
      ]

  -- The words that the expression finds, each replaced where it can be decoded
  unfoldable pub decode_words : List (String × String × String × String) → String → Outcome String
  unfolding decode_word
  decode_words [] result = done result
  decode_words ((matched, charset, encoding, encoded) ∷ rest) result =
      elim (decode_word charset encoding encoded) [
        | done decoded ↦ decode_words rest (replace matched decoded result)
        | failed e ↦ decode_words rest result
        | panicked ↦ panicked
      ]

  unfoldable pub decode_subject : String → Outcome String
  unfolding decode_words
  decode_subject value = decode_words (env.captures value) value
