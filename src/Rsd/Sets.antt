-- ===== src/Rsd/Sets.antt =====
-- The keys of a `map[string]bool`: lists in which no text stands twice, and the lemma that an
-- inclusion of sets of one size is an equality.
use rbln_k8s_dra_driver.Base.{
  suc, ◌≤◌, ◌≡◌, refl, length, true, false, List, [], ◌∷◌, if◌then◌else◌, arith, inl, inr,
  Bool-cases,
}
use rbln_k8s_dra_driver.Go.Text.{Text, text_eq, text_eq_iff, text_eq_refl, contains}

-- `m[a] = true`
unfoldable pub add : Text → List Text → List Text
add a xs = if contains xs a then xs else a ∷ xs

unfoldable pub to_set : List Text → List Text
unfolding add
to_set [] = []
to_set (x ∷ xs) = add x (to_set xs)

abbrev pub Nodup : List Text → Type 0
Nodup [] = Unit
Nodup (x ∷ xs) = (contains xs x ≡ false) × Nodup xs

pub to_set-Nodup : (xs : List Text) → Nodup (to_set xs)
unfolding to_set
to_set-Nodup [] = tt
to_set-Nodup (x ∷ xs) = elim (Bool-cases (contains (to_set xs) x)) [
  | inl e ↦ rw e (to_set-Nodup xs)
  | inr e ↦ rw e ((e, to_set-Nodup xs))
]

pub contains-to_set : (xs : List Text) (b : Text) → contains (to_set xs) b ≡ contains xs b
unfolding to_set contains
contains-to_set [] b = refl
contains-to_set (x ∷ xs) b =
    ground (arith, contains-to_set xs b, contains-to_set xs x, text_eq_iff x b)

-- `a` taken out of the list, once.
unfoldable remove : Text → List Text → List Text
remove a [] = []
remove a (x ∷ xs) = let rest = remove a xs in if text_eq x a then xs else x ∷ rest

length-remove :
    (a : Text) (xs : List Text) → contains xs a ≡ true → length xs ≡ suc (length (remove a xs))
unfolding remove contains
length-remove a [] h = absurd (cc)
length-remove a (x ∷ xs) h = ground (arith, length-remove a xs)

contains-remove :
    (a b : Text) (xs : List Text) → text_eq a b ≡ false → contains (remove a xs) b ≡ contains xs b
unfolding remove contains
contains-remove a b [] h = refl
contains-remove a b (x ∷ xs) h =
    ground (arith, contains-remove a b xs, text_eq_iff x a, text_eq_iff a b)

abbrev pub Within : List Text → List Text → Type 0
Within xs ys = (b : Text) → contains xs b ≡ true → contains ys b ≡ true

-- A list without repetitions that lies within another one of at most its length has all of it.
pub Within-converse :
    (xs ys : List Text) → Nodup xs → Within xs ys → length ys ≤ length xs → Within ys xs
unfolding contains
Within-converse [] [] n w l b h = h
Within-converse [] (y ∷ ys) n w l b h = absurd (omega arith)
Within-converse (x ∷ xs) ys (fresh, n) w l b h =
    let here : contains ys x ≡ true = w x (ground (arith, text_eq_refl x)) in
    let inside : Within xs (remove x ys) =
      λ c m. ground (arith, contains-remove x c ys, w c, text_eq_iff x c) in
    let shorter : length (remove x ys) ≤ length xs = ground (arith, length-remove x ys) in
    ground (arith, contains-remove x b ys, Within-converse xs (remove x ys) n inside shorter b)
