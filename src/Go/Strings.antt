-- ===== src/Go/Strings.antt =====
-- `strings`: ToLower, EqualFold, TrimSpace, TrimPrefix, CutPrefix, Cut.
use rbln_k8s_dra_driver.Base.{
  ℕ, ◌+◌, ◌≡◌, refl, Bool, true, ◌&&◌, ◌||◌, [], ◌∷◌, ◌++◌, Option, none, some, arith, ◌==◌, leb,
  if◌then◌else◌,
}
use rbln_k8s_dra_driver.Go.Text.{
  Text, codes, text_eq, is_empty, text_eq_refl, text_eq_sound, text_eq_iff,
}

unfoldable pub lower : ℕ → ℕ
lower c = if leb b'A' c && leb c b'Z' then c + 32 else c

-- `strings.ToLower`
unfoldable pub to_lower : Text → Text
unfolding lower
to_lower [] = []
to_lower (c ∷ s) = lower c ∷ to_lower s

lower_idem : (c : ℕ) → lower (lower c) ≡ lower c
unfolding lower
lower_idem c = ground arith

pub to_lower_idem : (s : Text) → to_lower (to_lower s) ≡ to_lower s
unfolding to_lower
to_lower_idem [] = refl
to_lower_idem (c ∷ s) = cc (lower_idem c, to_lower_idem s)

-- `strings.EqualFold`
unfoldable pub equal_fold : Text → Text → Bool
equal_fold s t = text_eq (to_lower s) (to_lower t)

pub equal_fold_refl : (s : Text) → equal_fold s s ≡ true
unfolding equal_fold
equal_fold_refl s = text_eq_refl (to_lower s)

pub equal_fold_sound : (s t : Text) → equal_fold s t ≡ true → to_lower s ≡ to_lower t
unfolding equal_fold
equal_fold_sound s t = text_eq_sound (to_lower s) (to_lower t)

pub equal_fold_complete : (s t : Text) → to_lower s ≡ to_lower t → equal_fold s t ≡ true
unfolding equal_fold
equal_fold_complete s t = (text_eq_iff (to_lower s) (to_lower t)).1

-- `asciiSpace`: tab, newline, vertical tab, form feed, carriage return and blank.
unfoldable pub is_space : ℕ → Bool
is_space c = c == 32 || (leb 9 c && leb c 13)

unfoldable pub trim_left : Text → Text
trim_left [] = []
trim_left (c ∷ s) = let rest = trim_left s in if is_space c then rest else c ∷ s

unfoldable pub trim_right : Text → Text
trim_right [] = []
trim_right (c ∷ s) = let rest = trim_right s in if is_empty rest && is_space c then [] else c ∷ rest

-- `strings.TrimSpace`
unfoldable pub trim_space : Text → Text
unfolding is_space trim_left trim_right
trim_space s = trim_right (trim_left s)

-- `strings.CutPrefix`: the rest, if the prefix is there.
unfoldable pub cut_prefix : Text → Text → Option Text
cut_prefix s [] = some s
cut_prefix [] (p ∷ ps) = none
cut_prefix (c ∷ s) (p ∷ ps) = let rest = cut_prefix s ps in if c == p then rest else none

-- `strings.TrimPrefix`
unfoldable pub trim_prefix : Text → Text → Text
unfolding cut_prefix
trim_prefix s p = elim (cut_prefix s p) [ some rest ↦ rest | none ↦ s ]

-- The part of `strings.Cut` before a separator of one byte; all of the text if there is none.
unfoldable pub cut_before : ℕ → Text → Text
cut_before sep [] = []
cut_before sep (c ∷ s) = let rest = cut_before sep s in if c == sep then [] else c ∷ rest

-- The parts around the last byte `sep`, as `strings.LastIndexByte` finds it: one step of the search,
-- by what the rest of the text gave.
unfoldable pub cut_step : ℕ → ℕ → Text → Option (Text × Text) → Option (Text × Text)
cut_step sep c s (some (before, after)) = some (c ∷ before, after)
cut_step sep c s none = if c == sep then some ([], s) else none

unfoldable pub cut_last : ℕ → Text → Option (Text × Text)
unfolding cut_step
cut_last sep [] = none
cut_last sep (c ∷ s) = cut_step sep c s (cut_last sep s)

pub cut_prefix-append : (p s : Text) → cut_prefix (p ++ s) p ≡ some s
unfolding cut_prefix
cut_prefix-append [] s = refl
cut_prefix-append (c ∷ p) s = ground (arith, cut_prefix-append p s)

pub cut_prefix_sound : (s p rest : Text) → cut_prefix s p ≡ some rest → s ≡ p ++ rest
unfolding cut_prefix
cut_prefix_sound s [] rest h = ground arith
cut_prefix_sound [] (c ∷ p) rest h = cc
cut_prefix_sound (x ∷ s) (c ∷ p) rest h = ground (arith, cut_prefix_sound s p rest)

trims : trim_space (codes " 0x1eff\n") ≡ codes "0x1eff"
unfolding trim_space
trims = refl
