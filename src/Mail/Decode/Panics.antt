-- ===== src/Mail/Decode/Panics.antt =====
-- src/mail.rs: when the decoding of Q-encoded text panics.
use Prim.Native.Char.{Char, code, len_utf8, len_utf8_def}
use Prim.Native.String as S
use text.Mathlib.TextLemmas.{nil-append, cons-append}
use dmarc_report_viewer.Common.{
  ℕ, ◌≤◌, String, ◌≡◌, ◌≢◌, ap, ◌∙◌, List, [], ◌∷◌, false, ◌==◌, if◌then◌else◌, if-cases, nat_eq,
  Option-cases, inl, inr, arith,
}
use dmarc_report_viewer.Common.Outcome.{Outcome, done, failed, panicked, ◌>>=◌, demand}
use dmarc_report_viewer.Mail.Decode.{push, q_decode, last_escaped, from_hex}

-- Every character has one byte.
abbrev pub IsAscii : String → Type 0
IsAscii S.[] = Unit
IsAscii (S.◌∷◌ c text) = (len_utf8 c ≡ 1) × IsAscii text

-- Every character has one byte, and none is the equal sign.
abbrev pub IsPlain : String → Type 0
IsPlain S.[] = Unit
IsPlain (S.◌∷◌ c text) = (len_utf8 c ≡ 1) × (code c ≢ 61) × IsPlain text

abbrev pub Returns : Outcome (List ℕ) → Type 0
Returns (done bytes) = Unit
Returns (failed e) = Unit
Returns panicked = ⊥

push-Returns : (byte : ℕ) (r : Outcome (List ℕ)) → Returns r → Returns (push byte r)
push-Returns byte (done bytes) h = tt
push-Returns byte (failed e) h = tt
push-Returns byte panicked h = elim h [ ]

wide_code : (c : Char) → 128 ≤ code c → (len_utf8 c == 1) ≡ false
wide_code c h = rw (len_utf8_def c) (ground arith)

-- A plain character gives one byte.
q_decode-plain :
    (c : Char) (text : String)
    → len_utf8 c ≡ 1
    → code c ≢ 61
    → q_decode (S.◌∷◌ c text) ≡ push (if code c == 95 then 32 else code c) (q_decode text)
unfolding q_decode
q_decode-plain c S.[] w n = ground arith
q_decode-plain c (S.◌∷◌ d S.[]) w n = ground arith
q_decode-plain c (S.◌∷◌ d (S.◌∷◌ e text)) w n = ground arith

q_decode-wide : (c : Char) (text : String) → 128 ≤ code c → q_decode (S.◌∷◌ c text) ≡ panicked
unfolding q_decode
q_decode-wide c S.[] h = ground (arith, wide_code c h)
q_decode-wide c (S.◌∷◌ d S.[]) h = ground (arith, wide_code c h)
q_decode-wide c (S.◌∷◌ d (S.◌∷◌ e text)) h = ground (arith, wide_code c h)

-- A text that has a character outside of ASCII before any equal sign makes the decoder panic.
pub q_decode-panics :
    (start : String) (c : Char) (text : String)
    → IsPlain start
    → 128 ≤ code c
    → q_decode (S.◌++◌ start (S.◌∷◌ c text)) ≡ panicked
q_decode-panics S.[] c text p h = rw nil-append (q_decode-wide c text h)
q_decode-panics (S.◌∷◌ d start) c text p h =
    ap q_decode (cons-append d start (S.◌∷◌ c text))
    ∙ q_decode-plain d (S.◌++◌ start (S.◌∷◌ c text)) p.0 p.1
    ∙ ap (push (if code d == 95 then 32 else code d)) (q_decode-panics start c text p.2 h)

one_byte :
    (width : ℕ) (x y : Outcome (List ℕ))
    → width ≡ 1
    → Returns x
    → Returns (if width == 1 then x else y)
one_byte width x y h p = rw ((nat_eq.equals_iff width 1).1 h) p

-- What every branch of a round comes to
round-Returns :
    (c width : ℕ) (x y z w : Outcome (List ℕ))
    → width ≡ 1
    → Returns x
    → Returns y
    → Returns z
    → Returns (if c == 95 then x else if c == 61 then y else if width == 1 then z else w)
round-Returns c width x y z w h p q r =
    if-cases Returns (c == 95) (λ _. p)
      (if-cases Returns (c == 61) (λ _. q) (one_byte width z w h r))

last_escaped-Returns : (width : ℕ) → width ≡ 1 → Returns (last_escaped width)
last_escaped-Returns width h = rw (h, last_escaped) tt

escaped-Returns :
    (bytes : List ℕ) (rest : Outcome (List ℕ)) (message : String)
    → Returns rest
    → Returns (demand (from_hex bytes) message >>= (λ value. push value rest))
escaped-Returns bytes rest message h = elim (Option-cases (from_hex bytes)) [
  | inl e ↦ rw e tt
  | inr (value, e) ↦ rw e (push-Returns value rest h)
]

-- A text of ASCII characters never makes the decoder panic, whatever follows its equal signs.
pub q_decode-Returns : (text : String) → IsAscii text → Returns (q_decode text)
unfolding q_decode
q_decode-Returns S.[] h = tt
q_decode-Returns (S.◌∷◌ c S.[]) h = round-Returns (code c) (len_utf8 c) _ _ _ _ h.0 tt tt tt
q_decode-Returns (S.◌∷◌ c (S.◌∷◌ d S.[])) h =
    let rest = q_decode-Returns (S.◌∷◌ d S.[]) h.1 in
    round-Returns (code c) (len_utf8 c) _ _ _ _ h.0 (push-Returns 32 _ rest)
      (last_escaped-Returns (len_utf8 d) h.1.0) (push-Returns (code c) _ rest)
q_decode-Returns (S.◌∷◌ c (S.◌∷◌ d (S.◌∷◌ e text))) h =
    let rest = q_decode-Returns (S.◌∷◌ d (S.◌∷◌ e text)) h.1 in
    round-Returns (code c) (len_utf8 c) _ _ _ _ h.0 (push-Returns 32 _ rest)
      (one_byte (len_utf8 d) _ _ h.1.0 (
        one_byte (len_utf8 e) _ _ h.1.1.0 (
          escaped-Returns (code d ∷ code e ∷ []) (q_decode text) _
            (q_decode-Returns text h.1.1.1))))
      (push-Returns (code c) _ rest)
