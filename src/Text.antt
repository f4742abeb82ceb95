-- ===== src/Text.antt =====
-- What the program uses of Go's packages strings, strconv and unicode, over native texts. A text is
-- walked by code points; the tests made here agree with Go's on the bytes of UTF-8.
pub mod Numbers
pub mod Prefix
pub mod HostPort
use Prim.Native.Char.{Char, code}
use Prim.Native.String
use corncrake.Prelude.{
  ℕ, zero, suc, ◌+◌, ◌-◌, ◌/◌, ◌%◌, String, Bool, true, false, ◌&&◌, ◌||◌, Option, none, some, List,
  [], ◌∷◌, leb, ltb, eqb, if◌then◌else◌, is_empty,
}

abbrev pub codes : String → List ℕ
codes String.[] = []
codes (String.◌∷◌ c s) = code c ∷ codes s

infixr 65 ◌<>◌
abbrev pub ◌<>◌ : String → String → String
s <> t = String.◌++◌ s t

-- The rest of a text behind a prefix, if it has the prefix.
abbrev pub strip_prefix : String → String → Option String
strip_prefix String.[] s = some s
strip_prefix (String.◌∷◌ c p) String.[] = none
strip_prefix (String.◌∷◌ c p) (String.◌∷◌ d s) =
    let rest = strip_prefix p s in if eqb (code c) (code d) then rest else none

abbrev pub starts : List ℕ → List ℕ → Bool
starts [] s = true
starts (c ∷ p) [] = false
starts (c ∷ p) (d ∷ s) = eqb c d && starts p s

-- `strings.Contains(s, sub)`, over code points.
abbrev pub contains : List ℕ → List ℕ → Bool
contains [] sub = starts sub []
contains (c ∷ s) sub = starts sub (c ∷ s) || contains s sub

-- `unicode.IsSpace`.
unfoldable pub is_space : ℕ → Bool
is_space c =
    (leb 9 c && leb c 13)
    || eqb c 32
    || eqb c 0x85
    || eqb c 0xa0
    || eqb c 0x1680
    || (leb 0x2000 c && leb c 0x200a)
    || eqb c 0x2028
    || eqb c 0x2029
    || eqb c 0x202f
    || eqb c 0x205f
    || eqb c 0x3000

abbrev pub trim_left : List ℕ → List ℕ
trim_left [] = []
trim_left (c ∷ s) = let rest = trim_left s in if is_space c then rest else c ∷ s

-- `strings.TrimSpace(s) == ""`: what is left once the leading spaces are cut off is empty, and then
-- there is nothing to cut at the end.
unfoldable pub is_blank : String → Bool
is_blank s = is_empty (trim_left (codes s))
