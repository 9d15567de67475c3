-- ===== src/Pci/Address.antt =====
-- The regular expressions of pci_sysfs.go, as lists of the classes of their characters.
use rbln_k8s_dra_driver.Base.{
  ℕ, ◌≡◌, refl, Bool, true, false, ◌&&◌, ◌||◌, List, [], ◌∷◌, arith, ◌==◌, leb, length,
}
use rbln_k8s_dra_driver.Go.Text.{Text, codes}

pub data CharClass : Type 0 where
  -- `[0-9a-fA-F]`
  hex_digit : CharClass
  -- `[0-7]`
  octal_digit : CharClass
  exactly : ℕ → CharClass

abbrev pub in_class : CharClass → ℕ → Bool
in_class hex_digit c =
    (leb b'0' c && leb c b'9') || (leb b'a' c && leb c b'f') || (leb b'A' c && leb c b'F')
in_class octal_digit c = leb b'0' c && leb c b'7'
in_class (exactly d) c = c == d

abbrev pub Pattern : Type 0
Pattern = List CharClass

-- `^…$`: the whole text, character for character.
unfoldable pub matches : Pattern → Text → Bool
matches [] [] = true
matches [] (c ∷ s) = false
matches (p ∷ pattern) [] = false
matches (p ∷ pattern) (c ∷ s) = in_class p c && matches pattern s

-- `pciAddressRegexp`
abbrev pub pci_address_regexp : Pattern
pci_address_regexp =
    hex_digit
    ∷ hex_digit
    ∷ hex_digit
    ∷ hex_digit
    ∷ exactly b':'
    ∷ hex_digit
    ∷ hex_digit
    ∷ exactly b':'
    ∷ hex_digit
    ∷ hex_digit
    ∷ exactly b'.'
    ∷ octal_digit
    ∷ []

-- `pciRootRegexp`
abbrev pub pci_root_regexp : Pattern
pci_root_regexp =
    exactly b'p'
    ∷ exactly b'c'
    ∷ exactly b'i'
    ∷ hex_digit
    ∷ hex_digit
    ∷ hex_digit
    ∷ hex_digit
    ∷ exactly b':'
    ∷ hex_digit
    ∷ hex_digit
    ∷ []

-- `pciAddressRegexp.MatchString`
unfoldable pub is_pci_address : Text → Bool
unfolding matches
is_pci_address s = matches pci_address_regexp s

-- A text that matches has the pattern's length.
pub length-matches : (p : Pattern) (s : Text) → matches p s ≡ true → length s ≡ length p
unfolding matches
length-matches [] [] h = refl
length-matches [] (c ∷ s) h = cc
length-matches (p ∷ ps) [] h = cc
length-matches (p ∷ ps) (c ∷ s) h = ground (arith, length-matches ps s)

addresses :
    (is_pci_address (codes "0000:3b:00.0") ≡ true)
    × (is_pci_address (codes "0000:3b:00.8") ≡ false)
    × (is_pci_address (codes "0000:3b:00.01") ≡ false)
    × (is_pci_address (codes "0000-3b:00.0") ≡ false)
unfolding is_pci_address
addresses = (refl, refl, refl, refl)
