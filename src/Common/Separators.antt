-- ===== src/Common/Separators.antt =====
-- Texts without a certain character, such as a separator.
use Prim.Native.Nat.{ℕ}
use Prim.Native.Char.{code}
use Prim.Native.String as S
use Prim.Native.String.{String}
use mathlib.Core.Logic.{◌≢◌}
use text.Mathlib.TextLemmas.{nil-append, cons-append}

-- No character of the text has the code `sep`.
abbrev pub Without : ℕ → String → Type 0
Without sep S.[] = Unit
Without sep (S.◌∷◌ c s) = (code c ≢ sep) × Without sep s

pub Without-append :
    (sep : ℕ) (s t : String) → Without sep s → Without sep t → Without sep (S.◌++◌ s t)
Without-append sep S.[] t p q = rw (nil-append t) q
Without-append sep (S.◌∷◌ c s) t p q = rw (cons-append c s t) (p.0, Without-append sep s t p.1 q)
