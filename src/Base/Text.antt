-- ===== src/Base/Text.antt =====
-- The operations of JavaScript's strings that the client uses. A text is a list of code points;
-- lone surrogates do not occur in it.
pub mod Parts
use Prim.Native.Char.{Char, code}
use Prim.Native.Nat.{ℕ, zero, suc}
use Prim.Native.String.{String, [], ◌∷◌, ◌++◌}
use mathlib.Core.Bool.{Bool, true, false, ◌&&◌, ◌||◌}
use mathlib.Core.List.{List}
use mathlib.Core.Option.{Option, none, some}
use ailens.Base.Tests.{leb, ◌==◌, ℕ_has_eq, string_has_eq, if◌then◌else◌}

abbrev between : ℕ → ℕ → ℕ → Bool
between lo hi c = leb lo c && leb c hi

-- The characters of `\s` in a regular expression, which are those that `trim` removes.
unfoldable pub is_space : ℕ → Bool
is_space c =
    between 9 13 c
    || c == 0x20
    || c == 0xa0
    || c == 0x1680
    || between 0x2000 0x200a c
    || c == 0x2028
    || c == 0x2029
    || c == 0x202f
    || c == 0x205f
    || c == 0x3000
    || c == 0xfeff

unfoldable pub trim_start : String → String
unfolding is_space
trim_start [] = []
trim_start (c ∷ s) = if is_space (code c) then trim_start s else c ∷ s

unfoldable pub trim_end : String → String
unfolding is_space
trim_end [] = []
trim_end (c ∷ s) = let rest = trim_end s in if rest == "" && is_space (code c) then "" else c ∷ rest

unfoldable pub trim : String → String
unfolding trim_start trim_end
trim s = trim_end (trim_start s)

-- Puts a character in front of the first piece.
abbrev pub onto_first : Char → List String → List String
onto_first c List.[] = List.◌∷◌ (c ∷ []) List.[]
onto_first c (List.◌∷◌ p ps) = List.◌∷◌ (c ∷ p) ps

-- `s.split('\n')`
unfoldable pub split_newline : String → List String
split_newline [] = List.◌∷◌ "" List.[]
split_newline (c ∷ s) =
    if code c == b'\n' then List.◌∷◌ "" (split_newline s) else onto_first c (split_newline s)

-- `pieces.join(sep)`
unfoldable pub join : String → List String → String
join sep List.[] = ""
join sep (List.◌∷◌ p List.[]) = p
join sep (List.◌∷◌ p (List.◌∷◌ q ps)) = p ++ (sep ++ join sep (List.◌∷◌ q ps))

-- `s.slice(p.length)` if `s.startsWith(p)`.
unfoldable pub after : String → String → Option String
after [] s = some s
after (d ∷ p) [] = none
after (d ∷ p) (c ∷ s) = if code c == code d then after p s else none

unfoldable pub starts_with : String → String → Bool
unfolding after
starts_with p s = elim (after p s) [ none ↦ false | some rest ↦ true ]

-- Concatenation of all pieces.
abbrev pub concat : List String → String
concat List.[] = ""
concat (List.◌∷◌ p ps) = p ++ concat ps

-- `s.length`, for a text without characters outside the basic plane.
unfoldable pub text_length : String → ℕ
text_length [] = zero
text_length (c ∷ s) = suc (text_length s)

-- `s.slice(0, n)`
unfoldable pub take : ℕ → String → String
take zero s = ""
take (suc n) [] = ""
take (suc n) (c ∷ s) = c ∷ take n s

-- `s.slice(n)`
unfoldable pub drop : ℕ → String → String
drop zero s = s
drop (suc n) [] = ""
drop (suc n) (c ∷ s) = drop n s
