-- ===== src/Host/Laws.antt =====
-- The documented behaviour of the node's services that the theorems rely on.
use rbln_k8s_dra_driver.Base.{◌≡◌, refl, ◌∙◌, ok, err, Result-cases, inl, inr, arith, List}
use rbln_k8s_dra_driver.Go.Text.{Text}
use rbln_k8s_dra_driver.Go.FilePath.{FilePath}
use rbln_k8s_dra_driver.Go.Errors.{Error}
use rbln_k8s_dra_driver.Claim.{PreparedClaims, Spec}
use rbln_k8s_dra_driver.Host.Interface.{Host}
use rbln_k8s_dra_driver.Host.Actions.{Action, ◌>>=◌, ◌>>◌, pure}

-- A call that leaves what can be observed of the node as it was, however it ends.
abbrev pub Keeps :
    (h : Host) {V : Type 0} (view : h.State → V) {R : Type 0} → (h.State → R × h.State) → Type 0
Keeps h view f = (s : h.State) → view (f s).1 ≡ view s

-- A call that leaves the checkpoint alone, however it ends.
abbrev pub Quiet : (h : Host) {R : Type 0} → (h.State → R × h.State) → Type 0
Quiet h f = Keeps h h.get_checkpoint f

-- What the plugin's calls on files and groups leave alone. It is asked of every path, which is more
-- than package os promises: the plugin's own paths stay in its metadata directory where the UIDs of
-- claims are names of files, and the checkpoint and the CDI specs lie elsewhere.
pub record Untouched (h : Host) {V : Type 0} (view : h.State → V) : Type 0 where
  pub mkdir_all : (p : FilePath) → Keeps h view (h.mkdir_all p)
  pub write_file : (p : FilePath) (content : Text) → Keeps h view (h.write_file p content)
  pub rename : (p q : FilePath) → Keeps h view (h.rename p q)
  pub remove_all : (p : FilePath) → Keeps h view (h.remove_all p)
  pub rsd_group : (ids : List Text) → Keeps h view (h.rsd_group ids)

-- The checkpoint is read back as it was written, a failed write leaves the old file, and no other
-- call of the plugin touches the file.
pub record KeepsCheckpoint (h : Host) : Type 0 where
  pub create-ok :
      (claims : PreparedClaims) (s : h.State)
      → (h.create_checkpoint claims s).0 ≡ ok tt
      → h.get_checkpoint (h.create_checkpoint claims s).1 ≡ ok claims
  pub create-err :
      (claims : PreparedClaims) (s : h.State) (e : Error)
      → (h.create_checkpoint claims s).0 ≡ err e
      → h.get_checkpoint (h.create_checkpoint claims s).1 ≡ h.get_checkpoint s
  pub files : Untouched h h.get_checkpoint
  pub write_spec : (spec : Spec) (name : Text) → Quiet h (h.write_spec spec name)
  pub remove_spec : (name : Text) → Quiet h (h.remove_spec name)

-- A call that leaves the checkpoint alone when it fails.
abbrev pub FailsQuiet : (h : Host) {A : Type 0} → Action h.State A → Type 0
FailsQuiet h m =
    (s : h.State) (x : Error) → (m s).0 ≡ err x → h.get_checkpoint (m s).1 ≡ h.get_checkpoint s

module _ (h : Host) where
  pub >>=-FailsQuiet :
      {A B : Type 0} (m : Action h.State A) (f : A → Action h.State B)
      → Quiet h m
      → ((a : A) → FailsQuiet h (f a))
      → FailsQuiet h (m >>= f)
  >>=-FailsQuiet m f qm qf s x e = elim (Result-cases (m s).0) [
    | inl (a, r) ↦ rw (r, ◌>>=◌) (qf a (m s).1 x (ground arith) ∙ qm s)
    | inr (y, r) ↦ rw (r, ◌>>=◌) (qm s)
  ]

  pub >>-pure-FailsQuiet :
      {B : Type 0} (m : Action h.State (Unit {0})) (b : B)
      → FailsQuiet h m
      → FailsQuiet h (m >> pure b)
  >>-pure-FailsQuiet m b q s x e = elim (Result-cases (m s).0) [
    | inl (a, r) ↦ absurd (ground arith)
    | inr (y, r) ↦ rw (r, ◌>>=◌) (q s y r)
  ]

  pub >>=-ok :
      {A B : Type 0} (m : Action h.State A) (f : A → Action h.State B) (s : h.State) (b : B)
      → ((m >>= f) s).0 ≡ ok b
      → (a : A) × ((m s).0 ≡ ok a) × ((m >>= f) s ≡ f a (m s).1)
  >>=-ok m f s b e = elim (Result-cases (m s).0) [
    | inl (a, r) ↦ (a, r, rw (r, ◌>>=◌) refl)
    | inr (y, r) ↦ absurd (ground arith)
  ]
