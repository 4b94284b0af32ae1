-- ===== src/Common/Text.antt =====
-- Go's strings package as the command line is read with it: Split at one byte and TrimSpace.
pub mod Laws
use Prim.Native.Nat.{ℕ}
use Prim.Native.Char.{Char, code}
use Prim.Native.String.{String, ◌++◌}
use mathlib.Core.Path.{◌≡◌, refl, ap, ◌∙◌}
use mathlib.Core.Bool.{Bool, true, false, not, ◌&&◌, ◌||◌}
use mathlib.Core.List.{List, [], ◌∷◌}
use native.Mathlib.Omega.{arith}
use text.Mathlib.TextLemmas.{append_assoc}
use redkey_operator.Common.Tests.{ltb, leb, eqb, if◌then◌else◌}

-- `unicode.IsSpace`
unfoldable pub is_space : Char → Bool
is_space c =
    (leb 9 (code c) && leb (code c) 13)
    || (eqb (code c) 32
        || (eqb (code c) 0x85
            || (eqb (code c) 0xa0
                || (eqb (code c) 0x1680
                    || ((leb 0x2000 (code c) && leb (code c) 0x200a)
                        || (eqb (code c) 0x2028
                            || (eqb (code c) 0x2029
                                || (eqb (code c) 0x202f
                                    || (eqb (code c) 0x205f || eqb (code c) 0x3000)))))))))

abbrev pub is_empty_string : String → Bool
is_empty_string String.[] = true
is_empty_string (String.◌∷◌ c s) = false

-- `strings.TrimLeftFunc(s, unicode.IsSpace)` and its counterpart at the end of the text
trim_left : String → String
trim_left String.[] = ""
trim_left (String.◌∷◌ c s) = let rest = trim_left s in if is_space c then rest else String.◌∷◌ c s

trim_right : String → String
trim_right String.[] = ""
trim_right (String.◌∷◌ c s) =
    let rest = trim_right s in if is_space c && is_empty_string rest then "" else String.◌∷◌ c rest

-- `strings.TrimSpace`
unfoldable pub trim_space : String → String
unfolding trim_left trim_right
trim_space s = trim_right (trim_left s)

-- The first character goes to the first part.
abbrev prepend : Char → List String → List String
prepend c [] = String.◌∷◌ c "" ∷ []
prepend c (p ∷ ps) = String.◌∷◌ c p ∷ ps

-- `strings.Split(s, sep)` where `sep` is one byte, given by its code
unfoldable pub split : String → ℕ → List String
split String.[] sep = "" ∷ []
split (String.◌∷◌ c s) sep =
    let rest = split s sep in if eqb (code c) sep then "" ∷ rest else prepend c rest
