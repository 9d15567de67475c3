-- ===== src/Host/Dirs.antt =====
-- The documented behaviour of directories, as far as the removal of metadata relies on it.
use rbln_k8s_dra_driver.Base.{◌≡◌, Bool, true, false, ◌&&◌, List, [], ◌∷◌, ◌++◌, ok, err, Member}
use rbln_k8s_dra_driver.Go.Text.{Text, text_eq}
use rbln_k8s_dra_driver.Go.FilePath.{FilePath, path_eq, is_element}
use rbln_k8s_dra_driver.Go.Errors.{not_exist}
use rbln_k8s_dra_driver.Claim.{PreparedClaims}
use rbln_k8s_dra_driver.Host.Interface.{Host, DirEntry}

-- The second path is the first one, or lies in it.
unfoldable pub is_under : FilePath → FilePath → Bool
is_under [] q = true
is_under (x ∷ p) [] = false
is_under (x ∷ p) (y ∷ q) = text_eq x y && is_under p q

-- Directories without links. A removed tree is gone with its files, and from the listing of its
-- parent; nothing else changes. The checkpoint lies outside `root`.
pub record KeepsDirs (h : Host) (root : FilePath) : Type 0 where
  pub names :
      (dir : FilePath) (s : h.State) (entries : List DirEntry) (e : DirEntry)
      → h.read_dir s dir ≡ ok entries
      → Member e entries
      → is_element e.name ≡ true
  pub remove-files :
      (p q : FilePath) (s : h.State)
      → (h.remove_all p s).0 ≡ ok tt
      → h.read_file (h.remove_all p s).1 (p ++ q) ≡ err not_exist
  pub remove-other_files :
      (p q : FilePath) (s : h.State)
      → is_under p q ≡ false
      → h.read_file (h.remove_all p s).1 q ≡ h.read_file s q
  pub remove-listed :
      (dir : FilePath) (name : Text) (s : h.State) (entries : List DirEntry) (e : DirEntry)
      → h.read_dir (h.remove_all (dir ++ (name ∷ [])) s).1 dir ≡ ok entries
      → Member e entries
      → (before : List DirEntry) × (h.read_dir s dir ≡ ok before) × Member e before
  pub remove-other_dirs :
      (dir other : FilePath) (name : Text) (s : h.State)
      → path_eq dir other ≡ false
      → is_under (dir ++ (name ∷ [])) other ≡ false
      → h.read_dir (h.remove_all (dir ++ (name ∷ [])) s).1 other ≡ h.read_dir s other
  pub create_checkpoint-files :
      (claims : PreparedClaims) (q : FilePath) (s : h.State)
      → h.read_file (h.create_checkpoint claims s).1 (root ++ q) ≡ h.read_file s (root ++ q)
  pub create_checkpoint-dirs :
      (claims : PreparedClaims) (q : FilePath) (s : h.State)
      → h.read_dir (h.create_checkpoint claims s).1 (root ++ q) ≡ h.read_dir s (root ++ q)
