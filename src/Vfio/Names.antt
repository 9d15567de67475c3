-- ===== src/Vfio/Names.antt =====
-- The names of passthrough devices tell PCI functions apart.
use mathlib.Core.List.{append-nil, append_assoc}
use rbln_k8s_dra_driver.Base.{
  ℕ, suc, ◌≡◌, refl, sym, ap, true, [], ◌∷◌, ◌++◌, arith, if◌then◌else◌, length, Bool-cases, inl,
  inr,
}
use rbln_k8s_dra_driver.Go.Text.{Text, codes}
use rbln_k8s_dra_driver.Go.Strings.{to_lower, lower}
use rbln_k8s_dra_driver.Pci.Address.{
  CharClass, hex_digit, octal_digit, exactly, in_class, Pattern, matches, length-matches,
  pci_address_regexp, is_pci_address,
}
use rbln_k8s_dra_driver.Sriov.{SriovInfo, device_name, partition_mode, is_vf}
use rbln_k8s_dra_driver.Vfio.Defs.{dash, replace_separators, vfio_device_name}

lower-dash-injective :
    (p : CharClass) (c d : ℕ)
    → in_class p c ≡ true
    → in_class p d ≡ true
    → lower (dash c) ≡ lower (dash d)
    → lower c ≡ lower d
unfolding lower dash
lower-dash-injective hex_digit c d hc hd e = ground arith
lower-dash-injective octal_digit c d hc hd e = ground arith
lower-dash-injective (exactly x) c d hc hd e = ground arith

replace_separators-injective :
    (p : Pattern) (s t : Text)
    → matches p s ≡ true
    → matches p t ≡ true
    → to_lower (replace_separators s) ≡ to_lower (replace_separators t)
    → to_lower s ≡ to_lower t
unfolding matches to_lower replace_separators
replace_separators-injective [] [] [] hs ht e = refl
replace_separators-injective [] (c ∷ s) t hs ht e = cc
replace_separators-injective [] [] (c ∷ t) hs ht e = cc
replace_separators-injective (p ∷ ps) [] t hs ht e = cc
replace_separators-injective (p ∷ ps) (c ∷ s) [] hs ht e = cc
replace_separators-injective (p ∷ ps) (c ∷ s) (d ∷ t) hs ht e =
    ground (arith, lower-dash-injective p c d, replace_separators-injective ps s t)

length-lower_replaced : (s : Text) → length (to_lower (replace_separators s)) ≡ length s
unfolding to_lower replace_separators
length-lower_replaced [] = refl
length-lower_replaced (c ∷ s) = ap suc (length-lower_replaced s)

append_cancel_right : (xs ys us vs : Text) → length xs ≡ length ys → xs ++ us ≡ ys ++ vs → xs ≡ ys
append_cancel_right [] [] us vs l e = refl
append_cancel_right [] (y ∷ ys) us vs l e = absurd (omega arith)
append_cancel_right (x ∷ xs) [] us vs l e = absurd (omega arith)
append_cancel_right (x ∷ xs) (y ∷ ys) us vs l e = ground (arith, append_cancel_right xs ys us vs)

-- The part that `deviceName` puts behind the name of the function.
abbrev suffix : SriovInfo → Text
suffix s = if is_vf s then codes "-" ++ partition_mode s else []

device_name-append : (s : SriovInfo) (base : Text) → device_name s base ≡ base ++ suffix s
unfolding device_name
device_name-append s base = elim (Bool-cases (is_vf s)) [
  | inl e ↦ rw e (append_assoc base (codes "-") (partition_mode s))
  | inr e ↦ rw e (sym (append-nil base))
]

-- Two functions of different addresses have different device names, whatever their SR-IOV layouts:
-- equal names mean equal addresses, up to case.
pub device_name-vfio_device_name_injective :
    (a b : Text) (s t : SriovInfo)
    → is_pci_address a ≡ true
    → is_pci_address b ≡ true
    → device_name s (vfio_device_name a) ≡ device_name t (vfio_device_name b)
    → to_lower a ≡ to_lower b
unfolding is_pci_address vfio_device_name
device_name-vfio_device_name_injective a b s t ha hb e =
    replace_separators-injective pci_address_regexp a b ha hb (
      append_cancel_right _ _ (suffix s) (suffix t)
        (omega (
          arith,
          length-lower_replaced a,
          length-lower_replaced b,
          length-matches pci_address_regexp a ha,
          length-matches pci_address_regexp b hb,
        ))
        (cc (device_name-append s (vfio_device_name a), device_name-append t (vfio_device_name b))))
