-- ===== src/WebHook/Replace.antt =====
-- src/web_hook.rs: what replacing a placeholder does to a text.
use Prim.Native.Char.{Char, code}
use Prim.Native.String as S
use text.Mathlib.TextEquality.{Char-path}
use text.Mathlib.TextLemmas.{nil-append, cons-append, append_assoc}
use dmarc_report_viewer.Common.{
  ℕ, zero, suc, ◌-◌, ◌≡◌, ◌≢◌, refl, sym, ap, ◌∙◌, String, none, some, true, false, nat_beq,
  Bool-cases, inl, inr, string_eq, arith,
}
use dmarc_report_viewer.Common.Separators.{Without}
use dmarc_report_viewer.Common.Texts.{concat, strip, chars, replace_after, replace}
use dmarc_report_viewer.WebHook.{placeholder}

-- The scan passes over the characters of an occurrence.
replace-skip :
    (skip : ℕ) (from to s t : String)
    → chars s ≡ skip
    → replace_after skip from to (S.◌++◌ s t) ≡ replace from to t
unfolding replace_after
replace-skip zero from to S.[] t h = rw (nil-append t) refl
replace-skip (suc skip) from to S.[] t h = absurd (omega arith)
replace-skip zero from to (S.◌∷◌ c s) t h = absurd (omega arith)
replace-skip (suc skip) from to (S.◌∷◌ c s) t h =
    rw (cons-append c s t) (replace-skip skip from to s t (omega arith))

strip-append : (s t : String) → strip s (S.◌++◌ s t) ≡ some t
unfolding strip
strip-append S.[] t = rw (nil-append t) refl
strip-append (S.◌∷◌ c s) t =
    let same : nat_beq (code c) (code c) ≡ true = ground arith in
    rw (cons-append c s t, same, strip) (strip-append s t)

-- A name up to its closing bracket does not begin another one.
strip-other :
    (k j u t : String)
    → k ≢ j
    → Without b']' k
    → Without b']' j
    → strip (S.◌++◌ k (S.◌∷◌ "]" u)) (S.◌++◌ j (S.◌∷◌ "]" t)) ≡ none
unfolding strip
strip-other S.[] S.[] u t d p q = absurd (d refl)
strip-other S.[] (S.◌∷◌ c j) u t d p q =
    let differs : nat_beq b']' (code c) ≡ false = ground arith in
    rw (nil-append (S.◌∷◌ "]" u), cons-append c j (S.◌∷◌ "]" t), differs, strip) refl
strip-other (S.◌∷◌ c k) S.[] u t d p q =
    let differs : nat_beq (code c) b']' ≡ false = ground arith in
    rw (nil-append (S.◌∷◌ "]" t), cons-append c k (S.◌∷◌ "]" u), differs, strip) refl
strip-other (S.◌∷◌ c k) (S.◌∷◌ e j) u t d p q =
    rw (cons-append c k (S.◌∷◌ "]" u), cons-append e j (S.◌∷◌ "]" t), strip)
      (elim (Bool-cases (nat_beq (code c) (code e))) [
        | inl same ↦
            rw same
              (strip-other k j u t (λ h. d (rw (h, Char-path c e (ground arith)) refl)) p.1 q.1)
        | inr differs ↦ rw differs refl
      ])

strip-literal :
    (rest s : String) (c : Char) → code c ≢ b'[' → strip (S.◌∷◌ "[" rest) (S.◌∷◌ c s) ≡ none
unfolding strip
strip-literal rest s c h =
    let differs : nat_beq b'[' (code c) ≡ false = ground arith in rw differs refl

-- A text without an opening bracket is passed over.
pub replace-literal :
    (rest to s t : String)
    → Without b'[' s
    → replace (S.◌∷◌ "[" rest) to (S.◌++◌ s t) ≡ S.◌++◌ s (replace (S.◌∷◌ "[" rest) to t)
unfolding replace_after
replace-literal rest to S.[] t h =
    rw (nil-append t, nil-append (replace (S.◌∷◌ "[" rest) to t)) refl
replace-literal rest to (S.◌∷◌ c s) t h =
    rw
      (
        cons-append c s t,
        cons-append c s (replace (S.◌∷◌ "[" rest) to t),
        strip-literal rest (S.◌++◌ s t) c h.0,
        replace_after,
      )
      (ap (S.◌∷◌ c) (replace-literal rest to s t h.1))

replace-miss :
    (from to : String) (c : Char) (s : String)
    → strip from (S.◌∷◌ c s) ≡ none
    → replace from to (S.◌∷◌ c s) ≡ S.◌∷◌ c (replace from to s)
unfolding replace_after
replace-miss from to c s h = rw (h, replace_after) refl

replace-hit :
    (from to : String) (c : Char) (s rest : String)
    → strip from (S.◌∷◌ c s) ≡ some rest
    → replace from to (S.◌∷◌ c s) ≡ S.◌++◌ to (replace_after (chars from - 1) from to s)
unfolding replace_after
replace-hit from to c s rest h = rw (h, replace_after) refl

-- A placeholder with its brackets
abbrev pub bracketed : String → String → String
bracketed key rest = S.◌∷◌ "[" (S.◌++◌ key (S.◌∷◌ "]" rest))

pub placeholder-bracketed : (key : String) → placeholder key ≡ bracketed key ""
unfolding concat
placeholder-bracketed key =
    cons-append "[" "" (S.◌++◌ key "]") ∙ ap (S.◌∷◌ "[") (nil-append (S.◌++◌ key "]"))

-- A key of a placeholder has no brackets.
abbrev pub IsKey : String → Type 0
IsKey key = Without b'[' key × Without b']' key

pub replace-other :
    (k j to t : String)
    → k ≢ j
    → IsKey k
    → IsKey j
    → replace (bracketed k "") to (bracketed j t) ≡ bracketed j (replace (bracketed k "") to t)
unfolding replace_after strip
replace-other k j to t d p q =
    replace-miss (bracketed k "") to "[" (S.◌++◌ j (S.◌∷◌ "]" t)) (strip-other k j "" t d p.1 q.1)
    ∙ (ap (S.◌∷◌ "[") (replace-literal (S.◌++◌ k "]") to j (S.◌∷◌ "]" t) q.0))

pub replace-same :
    (k to t : String)
    → replace (bracketed k "") to (bracketed k t) ≡ S.◌++◌ to (replace (bracketed k "") to t)
unfolding replace_after strip
replace-same k to t =
    let regroup : S.◌++◌ k (S.◌∷◌ "]" t) ≡ S.◌++◌ (S.◌++◌ k "]") t = sym (
      append_assoc k "]" t
      ∙ ap (S.◌++◌ k) (cons-append "]" "" t ∙ ap (S.◌∷◌ "]") (nil-append t))) in
    ap (λ s. replace (bracketed k "") to (S.◌∷◌ "[" s)) regroup
    ∙ replace-hit (bracketed k "") to "[" (S.◌++◌ (S.◌++◌ k "]") t) t
        (strip-append (S.◌++◌ k "]") t)
    ∙ (ap (S.◌++◌ to) (
        replace-skip (chars (bracketed k "") - 1) (bracketed k "") to (S.◌++◌ k "]") t
          (omega arith)))
