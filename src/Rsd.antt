-- ===== src/Rsd.antt =====
-- cmd/npu-kubelet-plugin/rsd_group.go: the test of a newly created RSD group. Inventory has the run
-- of rbln-smi, Groups the function that `Prepare` calls.
pub mod Sets
pub mod Inventory
pub mod Groups
pub mod Laws
use rbln_k8s_dra_driver.Base.{
  ℕ, ◌==◌, length, Bool, true, false, ◌&&◌, ◌||◌, not, List, [], ◌∷◌, ◌++◌, Result, ok, err, ◌>>=◌,
  ◌>>◌, guard, map_err, ℤ, is_positive, Option, none, some, if◌then◌else◌,
}
use rbln_k8s_dra_driver.Go.Text.{Text, codes, text_eq, contains}
use rbln_k8s_dra_driver.Go.Strings.{to_lower, cut_prefix}
use rbln_k8s_dra_driver.Go.Number.{parse_int, format_int}
use rbln_k8s_dra_driver.Go.Errors.{Error, message}
use rbln_k8s_dra_driver.Rsd.Sets.{add, to_set}

-- `rblnsmi.RblnSmi`: of each device the group and the address are read.
pub record GroupEntry : Type 0 where
  pub group_id : Text
  pub bus_id : Text

unfoldable pub is_group_number : Text → Option ℤ → Bool
is_group_number group none = false
is_group_number group (some id) = is_positive id && text_eq group (format_int id)

-- The group that the path names, by what `strings.CutPrefix` gave.
unfoldable pub checked_group_id : Option Text → Result Error Text
unfolding is_group_number
checked_group_id none = err (message "invalid private RSD group path")
checked_group_id (some group) =
    if is_group_number group (parse_int group)
    then ok group
    else err (message "invalid private RSD group path")

-- The keys of the map `wanted`.
unfoldable pub lowered : List Text → List Text
lowered [] = []
lowered (bus ∷ expected) = to_lower bus ∷ lowered expected

-- The loop over the devices, from the keys of `seen` to the ones at its end.
unfoldable pub seen_after :
    Text → List Text → List Text → List GroupEntry → Result Error (List Text)
seen_after group wanted seen [] = ok seen
seen_after group wanted seen (d ∷ devices) =
    let bus = to_lower d.bus_id in
    let ours = text_eq d.group_id group in
    let rest = seen_after group wanted (if ours then bus ∷ seen else seen) devices in
    if ours && (not (contains wanted bus) || contains seen bus)
    then err (message "RSD group contains unexpected or duplicate device")
    else rest

unfoldable pub check_members : Text → List Text → List GroupEntry → Result Error (Unit {0})
unfolding seen_after
check_members group wanted devices = do
  guard (not (length wanted == 0)) (message "RSD group has no requested devices")
  seen ← seen_after group wanted [] devices
  guard (length seen == length wanted) (message "RSD group lacks requested devices")

-- `validateRSDMembership`
unfoldable pub validate_rsd_membership :
    Text → List Text → List GroupEntry → Result Error (Unit {0})
unfolding checked_group_id check_members lowered
validate_rsd_membership path expected devices =
    checked_group_id (cut_prefix path (codes "/dev/rsd")) >>= λ group.
    check_members group (to_set (lowered expected)) devices

-- `recreateValidatedRSDGroup`, by what the library and rbln-smi gave.
unfoldable pub recreate_validated_rsd_group :
    List Text → Result Error Text → Result Error (List GroupEntry) → Result Error Text
unfolding validate_rsd_membership
recreate_validated_rsd_group bus_ids created inventory = do
  path ← created
  info ← inventory
  validate_rsd_membership path bus_ids info
  ok path
