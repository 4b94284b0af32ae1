-- ===== src/Common/Decimal.antt =====
-- Go's strconv at base 10 and 64 bits: FormatInt and ParseInt.
use Prim.Native.Nat.{ℕ, zero, suc, ◌+◌, ◌-◌, ◌*◌, ◌/◌, ◌%◌, ◌≤◌, ◌<◌}
use Prim.Native.Char.{Char, code}
use Prim.Native.String.{String}
use mathlib.Core.Path.{◌≡◌, refl, ap, ◌∙◌}
use mathlib.Core.Logic.{inl, inr}
use mathlib.Core.Bool.{◌&&◌}
use mathlib.Core.Option.{Option, none, some}
use native.Mathlib.Omega.{arith}
use redkey_operator.Common.Tests.{ltb, leb, eqb, if◌then◌else◌, Bool-cases}
use redkey_operator.Common.Int.{ℤ, pos, negsuc, two_63, IsInt64}

digit : ℕ → Char
digit zero = "0"
digit (suc zero) = "1"
digit (suc (suc zero)) = "2"
digit (suc (suc (suc zero))) = "3"
digit (suc (suc (suc (suc zero)))) = "4"
digit (suc (suc (suc (suc (suc zero))))) = "5"
digit (suc (suc (suc (suc (suc (suc zero)))))) = "6"
digit (suc (suc (suc (suc (suc (suc (suc zero))))))) = "7"
digit (suc (suc (suc (suc (suc (suc (suc (suc zero)))))))) = "8"
digit (suc (suc (suc (suc (suc (suc (suc (suc (suc n))))))))) = "9"

digit_value : Char → Option ℕ
digit_value c = if leb b'0' (code c) && leb (code c) b'9' then some (code c - b'0') else none

-- The digits of `n` in front of `rest`; each round writes one digit, so `suc n` rounds are enough.
write_digits : ℕ → ℕ → String → String
unfolding digit
write_digits zero n rest = rest
write_digits (suc fuel) n rest =
    let more = write_digits fuel (n / 10) (String.◌∷◌ (digit (n % 10)) rest) in
    if ltb n 10 then String.◌∷◌ (digit (n % 10)) rest else more

-- `strconv.FormatInt(z, 10)`
unfoldable pub format_int : ℤ → String
unfolding write_digits
format_int (pos n) = write_digits (suc n) n ""
format_int (negsuc n) = String.◌∷◌ "-" (write_digits (suc (suc n)) (suc n) "")

read_digits : ℕ → String → Option ℕ
unfolding digit_value
read_digits acc String.[] = some acc
read_digits acc (String.◌∷◌ c s) = elim (digit_value c) [
  | none ↦ none
  | some d ↦ read_digits (acc * 10 + d) s
]

-- The digits of an unsigned number, at least one.
read_unsigned : String → Option ℕ
unfolding read_digits
read_unsigned String.[] = none
read_unsigned (String.◌∷◌ c s) = read_digits 0 (String.◌∷◌ c s)

abbrev in_range : (ℕ → ℤ) → ℕ → Option ℕ → Option ℤ
in_range sign limit none = none
in_range sign limit (some n) = if leb n limit then some (sign n) else none

abbrev negated : ℕ → ℤ
negated zero = pos 0
negated (suc n) = negsuc n

-- `strconv.ParseInt(s, 10, 64)`; `none` is any error, of syntax or of range.
unfoldable pub parse_int : String → Option ℤ
unfolding read_unsigned
parse_int String.[] = none
parse_int (String.◌∷◌ c s) =
    if eqb (code c) b'-'
    then in_range negated two_63 (read_unsigned s)
    else if eqb (code c) b'+'
    then in_range pos (two_63 - 1) (read_unsigned s)
    else in_range pos (two_63 - 1) (read_unsigned (String.◌∷◌ c s))

digit_value-digit : (d : ℕ) → d < 10 → digit_value (digit d) ≡ some d
unfolding digit digit_value
digit_value-digit zero h = refl
digit_value-digit (suc zero) h = refl
digit_value-digit (suc (suc zero)) h = refl
digit_value-digit (suc (suc (suc zero))) h = refl
digit_value-digit (suc (suc (suc (suc zero)))) h = refl
digit_value-digit (suc (suc (suc (suc (suc zero))))) h = refl
digit_value-digit (suc (suc (suc (suc (suc (suc zero)))))) h = refl
digit_value-digit (suc (suc (suc (suc (suc (suc (suc zero))))))) h = refl
digit_value-digit (suc (suc (suc (suc (suc (suc (suc (suc zero)))))))) h = refl
digit_value-digit (suc (suc (suc (suc (suc (suc (suc (suc (suc zero))))))))) h = refl
digit_value-digit (suc (suc (suc (suc (suc (suc (suc (suc (suc (suc n)))))))))) h =
    absurd (omega arith)

-- What is written is a digit and more.
write_digits-cons :
    (fuel n : ℕ) (rest : String)
    → (d : ℕ) × (s : String) × (d < 10) × (write_digits (suc fuel) n rest ≡ String.◌∷◌ (digit d) s)
unfolding write_digits
write_digits-cons zero n rest = elim (Bool-cases (ltb n 10)) [
  | inl e ↦ (n % 10, rest, omega arith, rw e)
  | inr e ↦ (n % 10, rest, omega arith, rw e)
]
write_digits-cons (suc fuel) n rest = elim (Bool-cases (ltb n 10)) [
  | inl e ↦ (n % 10, rest, omega arith, rw e)
  | inr e ↦ rw e (write_digits-cons fuel (n / 10) (String.◌∷◌ (digit (n % 10)) rest))
]

read_digits-digit :
    (acc d : ℕ) (s : String)
    → d < 10
    → read_digits acc (String.◌∷◌ (digit d) s) ≡ read_digits (acc * 10 + d) s
unfolding read_digits
read_digits-digit acc d s h = rw (digit_value-digit d h, read_digits)

-- Reading the digits of `n` and going on is reading what follows with `n` read so far.
read_digits-write_digits :
    (fuel n : ℕ) (rest : String)
    → n < fuel
    → read_digits 0 (write_digits fuel n rest) ≡ read_digits n rest
unfolding write_digits
read_digits-write_digits zero n rest h = absurd (omega arith)
read_digits-write_digits (suc fuel) n rest h = elim (Bool-cases (ltb n 10)) [
  | inl small ↦ rw small (
      read_digits-digit 0 (n % 10) rest (omega arith) ∙ ap (λ k. read_digits k rest) (ground arith))
  | inr large ↦ rw large (
      read_digits-write_digits fuel (n / 10) (String.◌∷◌ (digit (n % 10)) rest) (ground arith)
      ∙ read_digits-digit (n / 10) (n % 10) rest (omega arith)
      ∙ ap (λ k. read_digits k rest) (omega arith))
]

digit_value-code : (c : Char) (d : ℕ) → digit_value c ≡ some d → 48 ≤ code c
unfolding digit_value
digit_value-code c d h = ground arith

read_unsigned-write_digits :
    (fuel n : ℕ) → n < suc fuel → read_unsigned (write_digits (suc fuel) n "") ≡ some n
unfolding read_unsigned
read_unsigned-write_digits fuel n h =
    let (d, s, small, e) = write_digits-cons fuel n "" in rw e (rw (← e) (whole fuel n h))
  where
    whole : (fuel n : ℕ) → n < suc fuel → read_digits 0 (write_digits (suc fuel) n "") ≡ some n
    whole fuel n h = rw (read_digits-write_digits (suc fuel) n "" h) (unfold read_digits in refl)

-- An unsigned text that begins with a digit is read with no sign.
parse_int-digit :
    (d : ℕ) (s : String)
    → d < 10
    → parse_int (String.◌∷◌ (digit d) s)
      ≡ in_range pos (two_63 - 1) (read_unsigned (String.◌∷◌ (digit d) s))
unfolding parse_int
parse_int-digit d s h = ground (arith, digit_value-code (digit d) d (digit_value-digit d h))

-- Every int64 survives being written and read.
pub parse_int-format_int : (z : ℤ) → IsInt64 z → parse_int (format_int z) ≡ some z
unfolding format_int
parse_int-format_int (pos n) h =
    let (d, s, small, e) = write_digits-cons n n "" in
    rw e (
      parse_int-digit d s small
      ∙ rw (← e) (rw (read_unsigned-write_digits n n (omega arith)) (ground arith)))
parse_int-format_int (negsuc n) h =
    unfold parse_int in rw (read_unsigned-write_digits (suc n) (suc n) (omega arith)) (ground arith)
