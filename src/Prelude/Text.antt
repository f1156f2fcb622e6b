-- ===== src/Prelude/Text.antt =====
-- Texts as lists of code points, with the tests of Python's `str` that the program uses, on ASCII.
use Prim.Native.Nat.{ℕ, ◌+◌}
use Prim.Native.Char.{code}
use Prim.Native.String.{String}
use mathlib.Core.Bool.{Bool, true, false, ◌&&◌, ◌||◌}
use mathlib.Core.List.{List, [], ◌∷◌, map}
use scalping.Prelude.Tests.{leb, ◌==◌, if◌then◌else◌}
use scalping.Prelude.Lists.{all}

abbrev pub Text : Type 0
Text = List ℕ

abbrev pub codes : String → Text
codes String.[] = []
codes (String.◌∷◌ c s) = code c ∷ codes s

abbrev pub eq_text : Text → Text → Bool
eq_text [] [] = true
eq_text [] (d ∷ u) = false
eq_text (c ∷ t) [] = false
eq_text (c ∷ t) (d ∷ u) = c == d && eq_text t u

abbrev to_lower : ℕ → ℕ
to_lower c = if leb b'A' c && leb c b'Z' then c + 32 else c

-- `s.lower()`.
abbrev pub lower : Text → Text
lower t = map to_lower t

-- `not s.strip()`.
abbrev pub is_blank : Text → Bool
is_blank t = all (λ c. c == 32 || (leb 9 c && leb c 13)) t
