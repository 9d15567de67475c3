-- ===== src/Go/Text.antt =====
-- A Go string that the program takes apart is its list of bytes. All texts of the program (PCI
-- addresses, sysfs values, Kubernetes names) are ASCII, so a byte is a character.
use Prim.Native.Char.{code}
use rbln_k8s_dra_driver.Base.{
  ℕ, String, ◌≡◌, refl, sym, ◌↔◌, Bool, true, false, ◌&&◌, List, [], ◌∷◌, arith, ◌==◌, Member, inl,
  inr, Bool-cases, ◌||◌,
}

abbrev pub Text : Type 0
Text = List ℕ

-- The bytes of a literal.
abbrev pub codes : String → Text
codes String.[] = []
codes (String.◌∷◌ first rest) = code first ∷ codes rest

unfoldable pub text_eq : Text → Text → Bool
text_eq [] [] = true
text_eq [] (y ∷ t) = false
text_eq (x ∷ s) [] = false
text_eq (x ∷ s) (y ∷ t) = x == y && text_eq s t

pub text_eq_refl : (s : Text) → text_eq s s ≡ true
unfolding text_eq
text_eq_refl [] = refl
text_eq_refl (x ∷ s) = ground (arith, text_eq_refl s)

pub text_eq_sound : (s t : Text) → text_eq s t ≡ true → s ≡ t
unfolding text_eq
text_eq_sound [] [] h = refl
text_eq_sound [] (y ∷ t) h = cc
text_eq_sound (x ∷ s) [] h = cc
text_eq_sound (x ∷ s) (y ∷ t) h = ground (arith, text_eq_sound s t)

pub text_eq_iff : (s t : Text) → (text_eq s t ≡ true) ↔ (s ≡ t)
text_eq_iff s t = (text_eq_sound s t, λ e. rw e (text_eq_refl t))

pub text_eq_sym : (s t : Text) → text_eq s t ≡ text_eq t s
unfolding text_eq
text_eq_sym [] [] = refl
text_eq_sym [] (y ∷ t) = refl
text_eq_sym (x ∷ s) [] = refl
text_eq_sym (x ∷ s) (y ∷ t) = ground (arith, text_eq_sym s t)

-- `s == ""`
abbrev pub is_empty : Text → Bool
is_empty [] = true
is_empty (x ∷ s) = false

-- Whether a text is an element: the keys of a `map[string]bool`, and `slices.Contains`.
unfoldable pub contains : List Text → Text → Bool
contains [] a = false
contains (x ∷ xs) a = text_eq x a || contains xs a

pub contains-Member : (xs : List Text) (a : Text) → contains xs a ≡ true → Member a xs
unfolding contains
contains-Member [] a h = cc
contains-Member (x ∷ xs) a h = elim (Bool-cases (text_eq x a)) [
  | inl e ↦ inl (sym (text_eq_sound x a e))
  | inr e ↦ inr (contains-Member xs a (rw e at h))
]

pub Member-contains : (xs : List Text) (a : Text) → Member a xs → contains xs a ≡ true
unfolding contains
Member-contains [] a h = elim h [ ]
Member-contains (x ∷ xs) a (inl e) = rw (e, text_eq_refl)
Member-contains (x ∷ xs) a (inr m) = ground (arith, Member-contains xs a m)

pub contains_iff : (xs : List Text) (a : Text) → (contains xs a ≡ true) ↔ Member a xs
contains_iff xs a = (contains-Member xs a, Member-contains xs a)
