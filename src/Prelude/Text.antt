-- ===== src/Prelude/Text.antt =====
-- Concatenation of strings, their truth, and `||` on them.
use Prim.Native.String
use Prim.Native.String.{String}
use mathlib.Core.Bool.{Bool, true, false}
use gonitor.Prelude.Tests.{if◌then◌else◌}

abbrev pub concat : String → String → String
concat s t = String.◌++◌ s t

-- A string is falsy where it is empty.
abbrev pub truthy : String → Bool
truthy String.[] = false
truthy (String.◌∷◌ c s) = true

-- `a || b` on strings
abbrev pub or_else : String → String → String
or_else a b = if truthy a then a else b
