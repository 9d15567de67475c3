-- ===== src/Rsd/Inventory.antt =====
-- `readGroupedInventory` of cmd/npu-kubelet-plugin/rsd_group.go: the search for rbln-smi and its run.
-- The file system, the search path, the process and the decoder are parameters.
use Prim.Native.Nat.{bit_and}
use rbln_k8s_dra_driver.Base.{
  ℕ, ◌==◌, Bool, false, ◌&&◌, not, List, [], ◌∷◌, Result, ok, ◌>>=◌, map_err, Option, none, some,
  if◌then◌else◌,
}
use rbln_k8s_dra_driver.Go.Text.{Text, codes}
use rbln_k8s_dra_driver.Go.Errors.{OsError, Error, wrap}
use rbln_k8s_dra_driver.Rsd.{GroupEntry}

-- `os.FileInfo`: its kind, and its permission bits.
pub record FileInfo : Type 0 where
  pub is_dir : Bool
  pub perm : ℕ

-- `os.Stat`, `exec.LookPath`, `exec.CommandContext(...).Output` under the time limit, and
-- `json.Unmarshal`.
pub record Commands : Type 0 where
  pub stat : Text → Result OsError FileInfo
  pub look_path : Text → Result Error Text
  pub output : Text → List Text → Result Error Text
  pub unmarshal : Text → Result Error (List GroupEntry)

abbrev pub smi_paths : List Text
smi_paths =
    codes "/usr/bin/rbln-smi"
    ∷ codes "/run/rbln/driver/usr/bin/rbln-smi"
    ∷ codes "/host/usr/bin/rbln-smi"
    ∷ codes "/host/driver/usr/bin/rbln-smi"
    ∷ []

-- 73 is 0o111: some execute bit is set.
unfoldable pub is_executable : Result OsError FileInfo → Bool
is_executable (Result.err e) = false
is_executable (Result.ok fi) = not fi.is_dir && not (bit_and fi.perm 73 == 0)

unfoldable pub first_executable : Commands → List Text → Option Text
unfolding is_executable
first_executable c [] = none
first_executable c (path ∷ paths) =
    if is_executable (c.stat path) then some path else first_executable c paths

unfoldable pub or_look_path : Commands → Option Text → Result Error Text
or_look_path c (some command) = ok command
or_look_path c none = c.look_path (codes "rbln-smi")

-- `readGroupedInventory`
unfoldable pub read_grouped_inventory : Commands → Result Error (List GroupEntry)
unfolding first_executable or_look_path
read_grouped_inventory c = do
  command ← or_look_path c (first_executable c smi_paths)
  content ←
      map_err (wrap "read RSD group membership") (c.output command (codes "-g" ∷ codes "-j" ∷ []))
  map_err (wrap "decode RSD group membership") (c.unmarshal content)
