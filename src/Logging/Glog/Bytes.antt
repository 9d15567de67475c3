-- ===== src/Logging/Glog/Bytes.antt =====
-- What the parts of the matcher give on a text that is put together from such parts.
use rbln_k8s_dra_driver.Base.{
  ℕ, ◌≡◌, refl, Bool, true, false, ◌&&◌, ◌||◌, not, ◌==◌, List, [], ◌∷◌, ◌++◌, none, some, arith,
}
use rbln_k8s_dra_driver.Go.Text.{Text}
use rbln_k8s_dra_driver.Go.Strings.{cut_step, cut_last}
use rbln_k8s_dra_driver.Logging.Glog.{
  Class, any_digit, only, in_class, after_classes, span, all_bytes, trim_newlines, read_strings,
}

-- One byte of each class.
unfoldable pub fits : List Class → Text → Bool
fits [] [] = true
fits [] (c ∷ s) = false
fits (k ∷ classes) [] = false
fits (k ∷ classes) (c ∷ s) = in_class k c && fits classes s

pub after_classes-append :
    (classes : List Class) (s rest : Text)
    → fits classes s ≡ true
    → after_classes classes (s ++ rest) ≡ some rest
unfolding after_classes fits
after_classes-append [] [] rest h = refl
after_classes-append [] (c ∷ s) rest h = absurd (ground arith)
after_classes-append (k ∷ classes) [] rest h = absurd (ground arith)
after_classes-append (k ∷ classes) (c ∷ s) rest h =
    ground (arith, after_classes-append classes s rest)

module _ (test : ℕ → Bool) where
  pub all_bytes-append :
      (x y : Text) → all_bytes test (x ++ y) ≡ (all_bytes test x && all_bytes test y)
  unfolding all_bytes
  all_bytes-append [] y = refl
  all_bytes-append (c ∷ x) y = ground (arith, all_bytes-append x y)

  -- A part in front ends where the test fails.
  pub span-append :
      (front : Text) (c : ℕ) (rest : Text)
      → all_bytes test front ≡ true
      → test c ≡ false
      → span test (front ++ (c ∷ rest)) ≡ (front, c ∷ rest)
  unfolding span all_bytes
  span-append [] c rest all stop = rw stop refl
  span-append (x ∷ front) c rest all stop = ground (arith, span-append front c rest)

  pub all_bytes_weaken :
      (other : ℕ → Bool) (s : Text)
      → ((c : ℕ) → test c ≡ true → other c ≡ true)
      → all_bytes test s ≡ true
      → all_bytes other s ≡ true
  unfolding all_bytes
  all_bytes_weaken other [] imp all = refl
  all_bytes_weaken other (c ∷ s) imp all = ground (arith, imp c, all_bytes_weaken other s imp)

-- The bytes other than `sep`.
abbrev pub differs : ℕ → ℕ → Bool
differs sep c = not (c == sep)

cut_last-none : (sep : ℕ) (s : Text) → all_bytes (differs sep) s ≡ true → cut_last sep s ≡ none
unfolding cut_last cut_step all_bytes
cut_last-none sep [] h = refl
cut_last-none sep (c ∷ s) h = ground (arith, cut_last-none sep s)

pub cut_last-append :
    (sep : ℕ) (before after : Text)
    → all_bytes (differs sep) after ≡ true
    → cut_last sep (before ++ (sep ∷ after)) ≡ some (before, after)
unfolding cut_last cut_step
cut_last-append sep [] after h = ground (arith, cut_last-none sep after)
cut_last-append sep (c ∷ before) after h = rw (cut_last-append sep before after h) refl

abbrev pub not_newline : ℕ → Bool
not_newline c = not (c == 10 || c == 13)

pub trim_newlines-append :
    (line : Text) → all_bytes not_newline line ≡ true → trim_newlines (line ++ (10 ∷ [])) ≡ line
unfolding trim_newlines all_bytes
trim_newlines-append [] h = refl
trim_newlines-append (c ∷ line) h = ground (arith, trim_newlines-append line)

pub read_strings-append :
    (line rest : Text)
    → all_bytes not_newline line ≡ true
    → read_strings (line ++ (10 ∷ rest))
      ≡ (line ++ (10 ∷ []), (read_strings rest).0 ∷ (read_strings rest).1)
unfolding read_strings all_bytes
read_strings-append [] rest h = refl
read_strings-append (c ∷ line) rest h = ground (arith, read_strings-append line rest)

abbrev pub clean : List Class → Bool
clean [] = true
clean (any_digit ∷ classes) = clean classes
clean (only b ∷ classes) = not_newline b && clean classes

pub fits-not_newline :
    (classes : List Class) (s : Text)
    → clean classes ≡ true
    → fits classes s ≡ true
    → all_bytes not_newline s ≡ true
unfolding all_bytes in_class fits
fits-not_newline [] [] e h = refl
fits-not_newline [] (c ∷ s) e h = absurd (ground arith)
fits-not_newline (k ∷ classes) [] e h = absurd (ground arith)
fits-not_newline (any_digit ∷ classes) (c ∷ s) e h = ground (arith, fits-not_newline classes s e)
fits-not_newline (only b ∷ classes) (c ∷ s) e h = ground (arith, fits-not_newline classes s)
