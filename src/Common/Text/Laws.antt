-- ===== src/Common/Text/Laws.antt =====
-- Laws of Split and TrimSpace, against joined and padded texts.
use Prim.Native.Nat.{ℕ}
use Prim.Native.Char.{Char, code}
use Prim.Native.String.{String, ◌++◌}
use mathlib.Core.Path.{◌≡◌, refl, ap, ◌∙◌}
use mathlib.Core.Bool.{Bool, true, not, ◌&&◌}
use mathlib.Core.List.{List, [], ◌∷◌}
use native.Mathlib.Omega.{arith}
use text.Mathlib.TextLemmas.{nil-append, cons-append}
use redkey_operator.Common.Tests.{eqb}
use redkey_operator.Common.Lists.{All}
use redkey_operator.Common.Text.{
  is_space, is_empty_string, trim_left, trim_right, trim_space, split,
}

-- White space only.
abbrev pub blank : String → Bool
blank String.[] = true
blank (String.◌∷◌ c s) = is_space c && blank s

-- No white space.
abbrev dense : String → Bool
dense String.[] = true
dense (String.◌∷◌ c s) = not (is_space c) && dense s

-- Not empty, and without white space.
abbrev pub solid : String → Bool
solid s = not (is_empty_string s) && dense s

-- The text has no byte `sep`.
abbrev pub lacks : ℕ → String → Bool
lacks sep String.[] = true
lacks sep (String.◌∷◌ c s) = not (eqb (code c) sep) && lacks sep s

-- The parts with `sep` between them.
abbrev pub join : Char → List String → String
join sep [] = ""
join sep (p ∷ []) = p
join sep (p ∷ q ∷ ps) = p ++ String.◌∷◌ sep (join sep (q ∷ ps))

trim_left-append : (l s : String) → blank l ≡ true → trim_left (l ++ s) ≡ trim_left s
unfolding trim_left
trim_left-append String.[] s h = rw (nil-append s) refl
trim_left-append (String.◌∷◌ c l) s h =
    rw (cons-append c l s) (ground (arith, h, trim_left-append l s))

trim_left-solid : (n s : String) → solid n ≡ true → trim_left (n ++ s) ≡ n ++ s
unfolding trim_left
trim_left-solid String.[] s h = absurd (cc)
trim_left-solid (String.◌∷◌ c n) s h = rw (cons-append c n s) (ground (arith, h))

trim_right-blank : (r : String) → blank r ≡ true → trim_right r ≡ ""
unfolding trim_right
trim_right-blank String.[] h = refl
trim_right-blank (String.◌∷◌ c r) h =
    rw (trim_right-blank r (ground (arith, h))) (ground (arith, h))

trim_right-append : (n r : String) → dense n ≡ true → blank r ≡ true → trim_right (n ++ r) ≡ n
unfolding trim_right
trim_right-append String.[] r hn hr = rw (nil-append r) (trim_right-blank r hr)
trim_right-append (String.◌∷◌ c n) r hn hr =
    rw (cons-append c n r, trim_right-append n r (ground (arith, hn)) hr) (ground (arith, hn))

pub trim_space-nil : trim_space "" ≡ ""
unfolding trim_space trim_left trim_right
trim_space-nil = refl

pub split-nil : (sep : ℕ) → split "" sep ≡ "" ∷ []
unfolding split
split-nil sep = refl

-- What stands between white space is what `trim_space` leaves.
pub trim_space-padded :
    (l n r : String)
    → blank l ≡ true
    → solid n ≡ true
    → blank r ≡ true
    → trim_space (l ++ (n ++ r)) ≡ n
unfolding trim_space
trim_space-padded l n r hl hn hr =
    ap trim_right (trim_left-append l (n ++ r) hl ∙ trim_left-solid n r hn)
    ∙ trim_right-append n r (ground (arith, hn)) hr

split-lacks : (p : String) (sep : ℕ) → lacks sep p ≡ true → split p sep ≡ p ∷ []
unfolding split
split-lacks String.[] sep h = refl
split-lacks (String.◌∷◌ c p) sep h = rw (split-lacks p sep (ground (arith, h))) (ground (arith, h))

split-append :
    (p : String) (sep : Char) (rest : String)
    → lacks (code sep) p ≡ true
    → split (p ++ String.◌∷◌ sep rest) (code sep) ≡ p ∷ split rest (code sep)
unfolding split
split-append String.[] sep rest h = rw (nil-append (String.◌∷◌ sep rest)) (ground arith)
split-append (String.◌∷◌ c p) sep rest h =
    rw (cons-append c p (String.◌∷◌ sep rest), split-append p sep rest (ground (arith, h)))
      (ground (arith, h))

-- Splitting the join of one part or more, none of them with the separator in it, gives the parts.
pub split-join :
    (sep : Char) (p : String) (ps : List String)
    → All (λ q. lacks (code sep) q ≡ true) (p ∷ ps)
    → split (join sep (p ∷ ps)) (code sep) ≡ p ∷ ps
split-join sep p [] h = split-lacks p (code sep) h.0
split-join sep p (q ∷ ps) h = split-append p sep _ h.0 ∙ ap (λ xs. p ∷ xs) (split-join sep q ps h.1)

lacks-append :
    (sep : ℕ) (s t : String) → lacks sep s ≡ true → lacks sep t ≡ true → lacks sep (s ++ t) ≡ true
lacks-append sep String.[] t hs ht = rw (nil-append t) ht
lacks-append sep (String.◌∷◌ c s) t hs ht =
    rw (cons-append c s t) (ground (arith, hs, lacks-append sep s t (ground (arith, hs)) ht))

pub lacks-padded :
    (sep : ℕ) (l n r : String)
    → lacks sep l ≡ true
    → lacks sep n ≡ true
    → lacks sep r ≡ true
    → lacks sep (l ++ (n ++ r)) ≡ true
lacks-padded sep l n r hl hn hr = lacks-append sep l _ hl (lacks-append sep n r hn hr)

-- A blank text has no comma.
pub blank-lacks : (s : String) → blank s ≡ true → lacks 44 s ≡ true
unfolding is_space
blank-lacks String.[] h = refl
blank-lacks (String.◌∷◌ c s) h = ground (arith, h, blank-lacks s (ground (arith, h)))
