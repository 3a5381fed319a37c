-- ===== src/Common/Texts.antt =====
-- Lists of texts: `split`, `join`, and the bytes of a text in UTF-8.
use Prim.Native.Nat.{ℕ, zero, suc, ◌+◌, ◌-◌, ◌/◌, ◌%◌}
use Prim.Native.Char.{Char, code}
use Prim.Native.String as S
use Prim.Native.String.{String, len, slice}
use mathlib.Core.Option.{Option, none, some}
use mathlib.Core.List.{List, [], ◌∷◌, ◌++◌}
use text.Mathlib.Text.{find?}
use dmarc_report_viewer.Common.Tests.{ltb, nat_beq, if◌then◌else◌}

unfoldable pub concat : List String → String
concat [] = ""
concat (s ∷ rest) = S.◌++◌ s (concat rest)

unfoldable pub join : String → List String → String
join sep [] = ""
join sep (s ∷ []) = s
join sep (s ∷ t ∷ rest) = S.◌++◌ s (S.◌++◌ sep (join sep (t ∷ rest)))

-- `split` by a separator that is not empty. Each cut takes the separator off the text, so as many
-- rounds as the text has bytes are enough.
unfoldable pub split_rounds : ℕ → String → String → List String
split_rounds zero sep s = s ∷ []
split_rounds (suc fuel) sep s = elim (find? s sep) [
  | none ↦ s ∷ []
  | some i ↦ slice s 0 i ∷ split_rounds fuel sep (slice s (i + len sep) (len s))
]

abbrev pub split : String → String → List String
split sep s = split_rounds (len s) sep s

-- What is left of a text after a prefix, if it begins with it
unfoldable pub strip : String → String → Option String
strip S.[] s = some s
strip (S.◌∷◌ p ps) S.[] = none
strip (S.◌∷◌ p ps) (S.◌∷◌ c s) =
    let rest = strip ps s in if nat_beq (code p) (code c) then rest else none

-- The number of characters
abbrev pub chars : String → ℕ
chars S.[] = 0
chars (S.◌∷◌ c s) = suc (chars s)

-- The scan of `replace`: `skip` characters belong to an occurrence that is replaced already.
unfoldable pub replace_after : ℕ → String → String → String → String
unfolding strip
replace_after skip from to S.[] = S.[]
replace_after (suc skip) from to (S.◌∷◌ c s) = replace_after skip from to s
replace_after zero from to (S.◌∷◌ c s) = elim (strip from (S.◌∷◌ c s)) [
  | none ↦ S.◌∷◌ c (replace_after zero from to s)
  | some rest ↦ S.◌++◌ to (replace_after (chars from - 1) from to s)
]

-- `str::replace` of a text that is not empty
abbrev pub replace : String → String → String → String
replace from to s = replace_after 0 from to s

-- The bytes of one character
abbrev encode : Char → List ℕ
encode c =
    let n = code c in
    let low = 128 + n % 64 in
    let middle = 128 + (n / 64) % 64 in
    if ltb n 128
    then n ∷ []
    else if ltb n 2048
    then (192 + n / 64) ∷ low ∷ []
    else if ltb n 65536
    then (224 + n / 4096) ∷ middle ∷ low ∷ []
    else (240 + n / 262144) ∷ (128 + (n / 4096) % 64) ∷ middle ∷ low ∷ []

-- `str::as_bytes`
unfoldable pub as_bytes : String → List ℕ
as_bytes S.[] = []
as_bytes (S.◌∷◌ c s) = encode c ++ as_bytes s

-- `split` by a character
abbrev pub onto_first : Char → List String → List String
onto_first c [] = S.◌∷◌ c S.[] ∷ []
onto_first c (s ∷ rest) = S.◌∷◌ c s ∷ rest

unfoldable pub split_char : ℕ → String → List String
split_char sep S.[] = S.[] ∷ []
split_char sep (S.◌∷◌ c s) =
    let rest = split_char sep s in if nat_beq (code c) sep then S.[] ∷ rest else onto_first c rest
