-- ===== src/Go/FilePath.antt =====
-- `path/filepath` on absolute paths: a clean path is the list of its segments.
use rbln_k8s_dra_driver.Base.{
  ℕ, ◌≡◌, refl, ap, Bool, true, false, not, arith, ◌&&◌, ◌||◌, List, [], ◌∷◌, ◌++◌, ◌==◌,
  if◌then◌else◌,
}
use rbln_k8s_dra_driver.Go.Text.{Text, codes, text_eq, text_eq_refl, is_empty}

abbrev pub FilePath : Type 0
FilePath = List Text

abbrev pub slash : ℕ
slash = b'/'

-- The segments between slashes, the first of them in its own place.
unfoldable pub split_on : Text → Text × List Text
split_on [] = ([], [])
split_on (c ∷ s) =
    let (segment, rest) = split_on s in
    if c == slash then ([], segment ∷ rest) else (c ∷ segment, rest)

-- `strings.Split(s, "/")`
unfoldable pub split : Text → List Text
unfolding split_on
split s = (split_on s).0 ∷ (split_on s).1

-- The path without its last segment.
unfoldable pub drop_last : FilePath → FilePath
drop_last [] = []
drop_last (x ∷ []) = []
drop_last (x ∷ y ∷ p) = x ∷ drop_last (y ∷ p)

-- One segment of `filepath.Clean`: an empty one and `.` stand for nothing, `..` goes up.
unfoldable pub push : FilePath → Text → FilePath
push p s =
    if is_empty s || text_eq s (codes ".")
    then p
    else if text_eq s (codes "..")
    then drop_last p
    else p ++ (s ∷ [])

unfoldable pub push_all : FilePath → List Text → FilePath
push_all p [] = p
push_all p (s ∷ segments) = push_all (push p s) segments

-- `filepath.Join(p, s)`
unfoldable pub join : FilePath → Text → FilePath
unfolding split push_all push drop_last text_eq
join p s = push_all p (split s)

unfoldable pub strip_slashes : Text → Text
strip_slashes [] = []
strip_slashes (c ∷ s) =
    let rest = strip_slashes s in if is_empty rest && c == slash then [] else c ∷ rest

unfoldable pub last_of : Text → List Text → Text
last_of s [] = s
last_of s (t ∷ segments) = last_of t segments

-- `filepath.Base`
unfoldable pub base : Text → Text
unfolding strip_slashes last_of split_on
base [] = codes "."
base (c ∷ s) =
    let stripped = strip_slashes (c ∷ s) in
    if is_empty stripped then codes "/" else last_of (split_on stripped).0 (split_on stripped).1

-- `filepath.Base` of a clean path
unfoldable pub path_base : FilePath → Text
path_base [] = codes "/"
path_base (x ∷ []) = x
path_base (x ∷ y ∷ p) = path_base (y ∷ p)

-- A name of one path element, which is not the directory itself or the one above.
unfoldable pub has_no_slash : Text → Bool
has_no_slash [] = true
has_no_slash (c ∷ s) = not (c == slash) && has_no_slash s

unfoldable pub is_element : Text → Bool
unfolding has_no_slash
is_element s =
    has_no_slash s && not (is_empty s || text_eq s (codes ".")) && not (text_eq s (codes ".."))

split_on-has_no_slash : (s : Text) → has_no_slash s ≡ true → split_on s ≡ (s, [])
unfolding split_on has_no_slash
split_on-has_no_slash [] e = refl
split_on-has_no_slash (c ∷ s) e = ground (arith, split_on-has_no_slash s)

pub join-is_element : (p : FilePath) (s : Text) → is_element s ≡ true → join p s ≡ p ++ (s ∷ [])
unfolding join split push_all push is_element
join-is_element p s e = ground (arith, split_on-has_no_slash s)

pub drop_last-append : (p : FilePath) (s : Text) → drop_last (p ++ (s ∷ [])) ≡ p
unfolding drop_last
drop_last-append [] s = refl
drop_last-append (x ∷ []) s = refl
drop_last-append (x ∷ y ∷ p) s = ap (λ (q : FilePath). x ∷ q) (drop_last-append (y ∷ p) s)

pub path_base-append : (p : FilePath) (s : Text) → path_base (p ++ (s ∷ [])) ≡ s
unfolding path_base
path_base-append [] s = refl
path_base-append (x ∷ []) s = refl
path_base-append (x ∷ y ∷ p) s = path_base-append (y ∷ p) s

unfoldable pub path_eq : FilePath → FilePath → Bool
path_eq [] [] = true
path_eq [] (y ∷ q) = false
path_eq (x ∷ p) [] = false
path_eq (x ∷ p) (y ∷ q) = text_eq x y && path_eq p q

pub path_eq-append : (p q r : FilePath) → path_eq (p ++ q) (p ++ r) ≡ path_eq q r
unfolding path_eq
path_eq-append [] q r = refl
path_eq-append (x ∷ p) q r = ground (arith, text_eq_refl x, path_eq-append p q r)

bases :
    (base (codes "../../drivers/vfio-pci") ≡ codes "vfio-pci")
    × (base (codes "/a/b/") ≡ codes "b")
    × (base (codes "//") ≡ codes "/")
    × (base (codes "") ≡ codes ".")
unfolding base
bases = (refl, refl, refl, refl)

joins :
    (join (codes "sys" ∷ []) (codes "a//./b/../c") ≡ codes "sys" ∷ codes "a" ∷ codes "c" ∷ [])
    × (join (codes "sys" ∷ []) (codes "") ≡ codes "sys" ∷ [])
unfolding join
joins = (refl, refl)
