-- ===== src/Go/Number.antt =====
-- `strconv`: ParseInt at base 10 and 64 bits (Atoi on a 64-bit machine), FormatInt and Itoa.
use rbln_k8s_dra_driver.Base.{
  ℕ, zero, suc, ◌+◌, ◌-◌, ◌*◌, ◌/◌, ◌%◌, ◌≡◌, refl, Bool, ◌&&◌, [], ◌∷◌, Option, none, some, ◌==◌,
  leb, ltb, if◌then◌else◌, ℤ, pos, negsuc,
}
use rbln_k8s_dra_driver.Go.Text.{Text, codes}

abbrev pub is_digit : ℕ → Bool
is_digit c = leb b'0' c && leb c b'9'

-- The digits, from the left, onto the value read so far.
unfoldable pub parse_digits : ℕ → Text → Option ℕ
parse_digits acc [] = some acc
parse_digits acc (c ∷ s) =
    let rest = parse_digits (acc * 10 + (c - b'0')) s in if is_digit c then rest else none

abbrev pub max_int64 : ℕ
max_int64 = 9223372036854775807

unfoldable pub non_negative : Option ℕ → Option ℤ
non_negative none = none
non_negative (some n) = if leb n max_int64 then some (pos n) else none

unfoldable pub non_positive : Option ℕ → Option ℤ
non_positive none = none
non_positive (some zero) = some (pos 0)
non_positive (some (suc n)) = if leb n max_int64 then some (negsuc n) else none

-- A number without a sign has at least one digit.
unfoldable pub parse_unsigned : Text → Option ℕ
parse_unsigned [] = none
parse_unsigned (c ∷ s) = parse_digits 0 (c ∷ s)

-- `strconv.ParseInt(s, 10, 64)`: `none` where the text is no number or the number does not fit.
unfoldable pub parse_int : Text → Option ℤ
unfolding non_negative non_positive parse_unsigned parse_digits
parse_int [] = none
parse_int (c ∷ s) =
    if c == b'-'
    then non_positive (parse_unsigned s)
    else if c == b'+'
    then non_negative (parse_unsigned s)
    else non_negative (parse_unsigned (c ∷ s))

-- The decimal digits in front of `acc`; fuel above the number is enough.
unfoldable pub decimal : ℕ → ℕ → Text → Text
decimal zero n acc = acc
decimal (suc fuel) n acc =
    let more = decimal fuel (n / 10) ((48 + n % 10) ∷ acc) in
    if ltb n 10 then (48 + n) ∷ acc else more

unfoldable pub format_nat : ℕ → Text
unfolding decimal
format_nat n = decimal (suc n) n []

-- `strconv.FormatInt(n, 10)` and `strconv.Itoa(n)`
unfoldable pub format_int : ℤ → Text
unfolding format_nat
format_int (pos n) = format_nat n
format_int (negsuc n) = b'-' ∷ format_nat (suc n)

parse_numbers :
    (parse_int (codes "-17") ≡ some (negsuc 16))
    × (parse_int (codes "+4") ≡ some (pos 4))
    × (parse_int (codes "9223372036854775808") ≡ none)
    × (parse_int (codes "") ≡ none)
    × (parse_int (codes "4x") ≡ none)
unfolding parse_int
parse_numbers = (refl, refl, refl, refl, refl)

format_numbers : (format_int (negsuc 119) ≡ codes "-120") × (format_int (pos 0) ≡ codes "0")
unfolding format_int
format_numbers = (refl, refl)
