-- ===== src/Shared/Text.antt =====
-- Texts by their code points, and the tests of JavaScript on them.
use Prim.Native.Nat.{ℕ, ◌+◌}
use Prim.Native.Char.{code}
use Prim.Native.String.{String}
use mathlib.Core.Bool.{Bool, ◌&&◌, ◌||◌, false, not, true}
use mathlib.Core.List.{List, [], ◌∷◌, reverse}
use agent_bus.Shared.Tests.{leb, ltb, ◌==◌, if◌then◌else◌}
use agent_bus.Shared.Lists.{any}

abbrev pub codes : String → List ℕ
codes Prim.Native.String.[] = []
codes (Prim.Native.String.◌∷◌ x s) = code x ∷ codes s

-- `xs.every(p)`
abbrev pub every : (ℕ → Bool) → List ℕ → Bool
every p xs = not (any (λ x. not (p x)) xs)

-- `s.length`: a code point above 0xffff is two units of UTF-16.
abbrev pub utf16_length : List ℕ → ℕ
utf16_length [] = 0
utf16_length (x ∷ xs) = (if ltb x 0x10000 then 1 else 2) + utf16_length xs

-- What `s.trim()` takes away.
abbrev pub is_space : ℕ → Bool
is_space x =
    (leb 9 x && leb x 13)
    || x == 32
    || x == 0xa0
    || x == 0x1680
    || (leb 0x2000 x && leb x 0x200a)
    || x == 0x2028
    || x == 0x2029
    || x == 0x202f
    || x == 0x205f
    || x == 0x3000
    || x == 0xfeff

-- `!s.trim()`
abbrev pub is_blank : String → Bool
is_blank s = every is_space (codes s)

-- `s.startsWith(t)` on code points
abbrev pub begins_with : List ℕ → List ℕ → Bool
begins_with [] xs = true
begins_with (t ∷ ts) [] = false
begins_with (t ∷ ts) (x ∷ xs) = (t == x) && begins_with ts xs

-- `s.includes(t)`
abbrev pub contains : List ℕ → List ℕ → Bool
contains ts [] = begins_with ts []
contains ts (x ∷ xs) = begins_with ts (x ∷ xs) || contains ts xs

-- `s.endsWith(t)`
abbrev pub ends_with : List ℕ → List ℕ → Bool
ends_with ts xs = begins_with (reverse ts) (reverse xs)

abbrev pub has_part : String → String → Bool
has_part part s = contains (codes part) (codes s)
