-- ===== src/Common/Texts.antt =====
-- White space, as Python knows it.
use Prim.Native.Nat.{ℕ}
use Prim.Native.String.{String}
use Prim.Native.Char.{code}
use mathlib.Core.Bool.{Bool, true, false, ◌&&◌, ◌||◌, not}
use mathlib.Core.List.{List, [], ◌∷◌}
use agent_orchestration_core.Common.Tests.{leb, ◌==◌, if◌then◌else◌}

-- The characters that `str.strip` drops
is_space : ℕ → Bool
is_space c =
    (leb 9 c && leb c 13)
    || (leb 28 c && leb c 32)
    || c == 133
    || c == 160
    || c == 5760
    || (leb 8192 c && leb c 8202)
    || c == 8232
    || c == 8233
    || c == 8239
    || c == 8287
    || c == 12288

-- Some character is none of these.
unfoldable pub has_ink : List ℕ → Bool
unfolding is_space
has_ink [] = false
has_ink (c ∷ cs) = not (is_space c) || has_ink cs

-- `str.strip`: the spaces in front, and those behind.
strip_front : String → String
unfolding is_space
strip_front String.[] = String.[]
strip_front (String.◌∷◌ c s) =
    let rest = strip_front s in if is_space (code c) then rest else String.◌∷◌ c s

is_empty_text : String → Bool
is_empty_text String.[] = true
is_empty_text (String.◌∷◌ c s) = false

strip_back : String → String
unfolding is_space is_empty_text
strip_back String.[] = String.[]
strip_back (String.◌∷◌ c s) =
    let rest = strip_back s in
    if is_empty_text rest && is_space (code c) then String.[] else String.◌∷◌ c rest

unfoldable pub strip : String → String
unfolding strip_front strip_back
strip s = strip_back (strip_front s)
