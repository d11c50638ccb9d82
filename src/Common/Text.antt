-- ===== src/Common/Text.antt =====
-- The functions of Go's `strings` that the sources call, on texts held as lists of characters.
pub mod Laws
use Prim.Native.Char.{Char, code}
use Prim.Native.String
use Prim.Native.String.{String, [], ◌∷◌}
use mathlib.Core.Path.{◌≡◌, refl}
use mathlib.Core.Bool.{Bool, ◌&&◌, ◌||◌}
use mathlib.Core.Option
use mathlib.Core.Option.{Option, none, some}
use mathlib.Core.List.{List}
use operator_lib.Common.Tests.{leb, ◌==◌, nat_eq, string_eq, if◌then◌else◌}

infixr 65 ◌++ˢ◌
abbrev pub ◌++ˢ◌ : String → String → String
s ++ˢ t = String.◌++◌ s t

-- `unicode.IsSpace`: the characters with the property White_Space.
unfoldable pub is_space : Char → Bool
is_space c =
    let n = code c in
    leb 9 n && leb n 13
    || n == 32
    || n == 0x85
    || n == 0xa0
    || n == 0x1680
    || leb 0x2000 n && leb n 0x200a
    || n == 0x2028
    || n == 0x2029
    || n == 0x202f
    || n == 0x205f
    || n == 0x3000

unfoldable pub trim_left : String → String
trim_left [] = []
trim_left (c ∷ s) = if is_space c then trim_left s else c ∷ s

unfoldable pub trim_right : String → String
trim_right [] = []
trim_right (c ∷ s) = let rest = trim_right s in if rest == "" && is_space c then "" else c ∷ rest

-- `strings.TrimSpace(s)`
unfoldable pub trim_space : String → String
unfolding trim_left trim_right is_space
trim_space s = trim_right (trim_left s)

-- The parts before and after the first `sep`.
unfoldable pub cut : Char → String → Option (String × String)
cut sep [] = none
cut sep (c ∷ s) =
    if code c == code sep
    then some ([], s)
    else Option.map (λ (p : String × String). (c ∷ p.0, p.1)) (cut sep s)

abbrev one_or_two : String → Option (String × String) → List String
one_or_two s none = List.◌∷◌ s List.[]
one_or_two s (some (a, b)) = List.◌∷◌ a (List.◌∷◌ b List.[])

-- `strings.SplitN(s, sep, 2)`, at a separator of one character
unfoldable pub split_two : Char → String → List String
unfolding cut
split_two sep s = one_or_two s (cut sep s)

-- the character of `to` that stands where `c` stands in `from`
translate : String → String → Char → Char
translate [] to c = c
translate (f ∷ from) [] c = c
translate (f ∷ from) (t ∷ to) c = if code f == code c then t else translate from to c

-- `strings.ToLower`, exact on ASCII texts: every other character stays.
unfoldable pub to_lower : String → String
unfolding translate
to_lower [] = []
to_lower (c ∷ s) =
    translate "ABCDEFGHIJKLMNOPQRSTUVWXYZ" "abcdefghijklmnopqrstuvwxyz" c ∷ to_lower s

tests : (trim_space " a b\n" ≡ "a b") × (to_lower "HTTP_PROXY" ≡ "http_proxy")
unfolding trim_space to_lower
tests = (refl, refl)

splits : split_two "/" "a/b/c" ≡ List.◌∷◌ "a" (List.◌∷◌ "b/c" List.[])
unfolding split_two
splits = refl
