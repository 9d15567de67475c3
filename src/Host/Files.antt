-- ===== src/Host/Files.antt =====
-- The documented behaviour of files, as far as the metadata of claims relies on it.
use rbln_k8s_dra_driver.Base.{◌≡◌, false, ◌++◌, ok}
use rbln_k8s_dra_driver.Go.Text.{Text}
use rbln_k8s_dra_driver.Go.FilePath.{FilePath, path_eq}
use rbln_k8s_dra_driver.Claim.{PreparedClaims, Spec}
use rbln_k8s_dra_driver.Host.Interface.{Host}

-- The file can be read, and holds this text.
abbrev pub Holds : (h : Host) → h.State → FilePath → Text → Type 0
Holds h s path content = h.read_file s path ≡ ok content

-- A call after which this file holds what it held, however the call ends.
abbrev pub KeepsFile : (h : Host) {R : Type 0} → (h.State → R × h.State) → FilePath → Type 0
KeepsFile h f path =
    (s : h.State) (content : Text) → Holds h s path content → Holds h (f s).1 path content

-- Files without links. A written file holds what was written, a renamed one is found under its new
-- name, and no other file changes. The specs and the checkpoint lie outside `root`.
pub record KeepsFiles (h : Host) (root : FilePath) : Type 0 where
  pub mkdir_all : (p q : FilePath) → KeepsFile h (h.mkdir_all p) q
  pub write-ok :
      (p : FilePath) (content : Text) (s : h.State)
      → (h.write_file p content s).0 ≡ ok tt
      → Holds h (h.write_file p content s).1 p content
  pub write-other :
      (p q : FilePath) (content : Text)
      → path_eq p q ≡ false
      → KeepsFile h (h.write_file p content) q
  pub rename-ok :
      (p q : FilePath) (content : Text) (s : h.State)
      → Holds h s p content
      → (h.rename p q s).0 ≡ ok tt
      → Holds h (h.rename p q s).1 q content
  pub rename-other :
      (p q r : FilePath) (content other : Text) (s : h.State)
      → Holds h s p content
      → path_eq p r ≡ false
      → path_eq q r ≡ false
      → Holds h s r other
      → Holds h (h.rename p q s).1 r other
  pub create_checkpoint :
      (claims : PreparedClaims) (q : FilePath)
      → KeepsFile h (h.create_checkpoint claims) (root ++ q)
  pub write_spec :
      (spec : Spec) (name : Text) (q : FilePath) → KeepsFile h (h.write_spec spec name) (root ++ q)
