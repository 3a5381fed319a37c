-- ===== src/Common/Text.antt =====
-- The operations of `str` and `String` that the code uses, and numbers as decimal texts.
use Prim.Native.Nat.{ℕ, zero, suc, ◌+◌, ◌*◌, ◌-◌, ◌/◌, ◌%◌}
use Prim.Native.Char.{Char, code}
use Prim.Native.String.{String, [], ◌∷◌, ◌++◌, len, slice}
use mathlib.Core.Bool.{Bool, true, false, not, ◌&&◌, ◌||◌}
use mathlib.Core.Option.{Option, none, some}
use text.Mathlib.Text.{find?, starts_with}
use dmarc_report_viewer.Common.Tests.{ltb, leb, if◌then◌else◌, is_none, ◌==◌, string_eq, nat_eq}

abbrev pub is_blank : String → Bool
is_blank [] = true
is_blank (c ∷ s) = false

abbrev pub contains : String → String → Bool
contains s t = not (is_none (find? s t))

abbrev pub ends_with : String → String → Bool
ends_with s t = leb (len t) (len s) && slice s (len s - len t) (len s) == t

abbrev pub strip_prefix : String → String → Option String
strip_prefix s t = if starts_with s t then some (slice s (len t) (len s)) else none

-- `remove(0)` and `pop`
abbrev pub drop_first : String → String
drop_first [] = []
drop_first (c ∷ s) = s

unfoldable pub drop_last : String → String
drop_last [] = []
drop_last (c ∷ s) = let rest = drop_last s in if is_blank s then [] else c ∷ rest

-- `char::is_whitespace`
abbrev pub is_whitespace : Char → Bool
is_whitespace c =
    let n = code c in
    (leb 9 n && leb n 13)
    || n == 32
    || n == 133
    || n == 160
    || n == 5760
    || (leb 8192 n && leb n 8202)
    || n == 8232
    || n == 8233
    || n == 8239
    || n == 8287
    || n == 12288

unfoldable pub trim_start : String → String
trim_start [] = []
trim_start (c ∷ s) = let rest = trim_start s in if is_whitespace c then rest else c ∷ s

unfoldable pub trim_end : String → String
trim_end [] = []
trim_end (c ∷ s) =
    let rest = trim_end s in if is_blank rest && is_whitespace c then [] else c ∷ rest

unfoldable pub trim : String → String
unfolding trim_start trim_end
trim s = trim_end (trim_start s)

abbrev pub digit : ℕ → String
digit d = slice "0123456789" d (d + 1)

-- The decimal digits of a number. Each round divides by ten, so `suc n` rounds are enough.
unfoldable pub decimal : ℕ → ℕ → String
decimal zero n = []
decimal (suc fuel) n = elim (ltb n 10) [
  | true ↦ digit n
  | false ↦ decimal fuel (n / 10) ++ digit (n % 10)
]

abbrev pub to_string : ℕ → String
to_string n = decimal (suc n) n

-- The number that a text of decimal digits stands for, after what `acc` has read
unfoldable pub digits_value : String → ℕ → Option ℕ
digits_value [] acc = some acc
digits_value (c ∷ s) acc =
    let rest = digits_value s (acc * 10 + (code c - 48)) in
    if leb 48 (code c) && leb (code c) 57 then rest else none

-- `parse::<u16>`: digits, after one plus sign at most
abbrev below_u16 : Option ℕ → Option ℕ
below_u16 none = none
below_u16 (some n) = if ltb n 65536 then some n else none

abbrev digits_u16 : String → Option ℕ
digits_u16 s = if is_blank s then none else below_u16 (digits_value s 0)

unfoldable pub parse_u16 : String → Option ℕ
unfolding digits_value
parse_u16 [] = none
parse_u16 (c ∷ s) = if code c == 43 then digits_u16 s else digits_u16 (c ∷ s)
