-- ===== src/Prelude/Text.antt =====
-- Python's view of a text: its white space, and the tests that `isspace` and `strip` serve for.
use Prim.Native.Nat.{ℕ}
use Prim.Native.Char.{code}
use Prim.Native.String.{String, [], ◌∷◌}
use mathlib.Core.Bool.{Bool, true, false, ◌&&◌, ◌||◌}
use aios_tools.Prelude.Tests.{leb, if◌then◌else◌}

-- `ch.isspace()`, by code point
unfoldable pub is_space : ℕ → Bool
is_space c =
    leb 9 c && leb c 13
    || leb 28 c && leb c 32
    || leb 133 c && leb c 133
    || leb 160 c && leb c 160
    || leb 5760 c && leb c 5760
    || leb 8192 c && leb c 8202
    || leb 8232 c && leb c 8233
    || leb 8239 c && leb c 8239
    || leb 8287 c && leb c 8287
    || leb 12288 c && leb c 12288

-- `any(ch.isspace() for ch in s)`
unfoldable pub has_space : String → Bool
unfolding is_space
has_space [] = false
has_space (c ∷ s) = is_space (code c) || has_space s

-- `not s.strip()`
unfoldable pub is_blank : String → Bool
unfolding is_space
is_blank [] = true
is_blank (c ∷ s) = is_space (code c) && is_blank s

-- `s.isascii()`
unfoldable pub is_ascii : String → Bool
is_ascii [] = true
is_ascii (c ∷ s) = leb (code c) 127 && is_ascii s

-- `s.lstrip()`
strip_start : String → String
unfolding is_space
strip_start [] = []
strip_start (c ∷ s) = let rest = strip_start s in if is_space (code c) then rest else c ∷ s

-- `s.rstrip()`
strip_end : String → String
unfolding is_space is_blank
strip_end [] = []
strip_end (c ∷ s) =
    let rest = strip_end s in if is_space (code c) && is_blank s then [] else c ∷ rest

-- `s.strip()`
unfoldable pub strip : String → String
unfolding strip_start strip_end
strip s = strip_end (strip_start s)
