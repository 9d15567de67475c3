-- ===== src/Go/Decimal.antt =====
-- A printed number is a file name.
use rbln_k8s_dra_driver.Base.{
  ℕ, zero, suc, ◌+◌, ◌%◌, ◌/◌, ◌≡◌, refl, Bool, true, false, ◌&&◌, ◌||◌, ◌==◌, [], ◌∷◌, ℤ, pos,
  negsuc, arith,
}
use rbln_k8s_dra_driver.Go.Text.{Text, text_eq, is_empty}
use rbln_k8s_dra_driver.Go.Number.{is_digit, decimal, format_nat, format_int}
use rbln_k8s_dra_driver.Go.FilePath.{has_no_slash, is_element}

abbrev numeric : Text → Bool
numeric [] = true
numeric (c ∷ s) = (is_digit c || c == b'-') && numeric s

decimal-numeric :
    (fuel n : ℕ) (acc : Text) → numeric acc ≡ true → numeric (decimal fuel n acc) ≡ true
unfolding decimal
decimal-numeric zero n acc h = h
decimal-numeric (suc fuel) n acc h =
    ground (arith, decimal-numeric fuel (n / 10) ((48 + n % 10) ∷ acc))

decimal-not_empty :
    (fuel n : ℕ) (acc : Text) → is_empty acc ≡ false → is_empty (decimal fuel n acc) ≡ false
unfolding decimal
decimal-not_empty zero n acc h = h
decimal-not_empty (suc fuel) n acc h =
    ground (arith, decimal-not_empty fuel (n / 10) ((48 + n % 10) ∷ acc))

format_nat-not_empty : (n : ℕ) → is_empty (format_nat n) ≡ false
unfolding format_nat decimal
format_nat-not_empty n = ground (arith, decimal-not_empty n (n / 10) ((48 + n % 10) ∷ []))

numeric-has_no_slash : (s : Text) → numeric s ≡ true → has_no_slash s ≡ true
unfolding has_no_slash
numeric-has_no_slash [] h = refl
numeric-has_no_slash (c ∷ s) h = ground (arith, numeric-has_no_slash s)

numeric-is_element : (s : Text) → numeric s ≡ true → is_empty s ≡ false → is_element s ≡ true
unfolding is_element text_eq
numeric-is_element [] h n = absurd (cc)
numeric-is_element (c ∷ s) h n = ground (arith, numeric-has_no_slash (c ∷ s) h)

pub format_int-is_element : (n : ℤ) → is_element (format_int n) ≡ true
unfolding format_int format_nat
format_int-is_element (pos n) =
    numeric-is_element (format_nat n) (decimal-numeric (suc n) n [] refl) (format_nat-not_empty n)
format_int-is_element (negsuc n) =
    numeric-is_element (b'-' ∷ format_nat (suc n))
      (ground (arith, decimal-numeric (suc (suc n)) (suc n) [] refl)) refl
