-- ===== src/Rsd/Groups.antt =====
-- `recreateValidatedRSDGroup` of cmd/npu-kubelet-plugin/rsd_group.go on the state of the node, as
-- `NewDeviceState` hands it to `Prepare`.
use rbln_k8s_dra_driver.Base.{List, Result, Option, none, some, ok, ◌≡◌, [], ◌∷◌}
use rbln_k8s_dra_driver.Base
use rbln_k8s_dra_driver.Go.Text.{Text}
use rbln_k8s_dra_driver.Go.FilePath.{FilePath, split, push_all}
use rbln_k8s_dra_driver.Go.Errors.{Error}
use rbln_k8s_dra_driver.Host.{Host}
use rbln_k8s_dra_driver.Rsd.{recreate_validated_rsd_group}
use rbln_k8s_dra_driver.Rsd.Inventory.{Commands, read_grouped_inventory}

-- `rsdgroup.RecreateRsdGroup`, and the commands in a state of the node.
pub record GroupLibrary (S : Type 0) : Type 0 where
  pub recreate_rsd_group : List Text → S → Result Error Text × S
  pub commands : S → Commands

-- The path, `none` for the empty text.
unfoldable pub to_path : Text → Option FilePath
to_path [] = none
to_path (c ∷ path) = some (push_all [] (split (c ∷ path)))

unfoldable pub to_paths : Result Error Text → Result Error (Option FilePath)
to_paths r = Base.◌>>=◌ r λ path. ok (to_path path)

-- `recreateValidatedRSDGroup`: the group is created first, and its members are read then.
unfoldable pub rsd_group_fn :
    {S : Type 0} → GroupLibrary S → List Text → S → Result Error (Option FilePath) × S
unfolding to_paths
rsd_group_fn lib bus_ids s =
    let (created, s') = lib.recreate_rsd_group bus_ids s in
    (
      to_paths
          (recreate_validated_rsd_group bus_ids created (read_grouped_inventory (lib.commands s'))),
      s',
    )

-- The plugin is set up with this function.
abbrev pub Uses : (h : Host) → GroupLibrary h.State → Type 0
Uses h lib =
    (bus_ids : List Text) (s : h.State) → h.rsd_group bus_ids s ≡ rsd_group_fn lib bus_ids s
