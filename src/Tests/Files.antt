-- ===== src/Tests/Files.antt =====
-- A host that keeps files under their paths.
use rbln_k8s_dra_driver.Base.{◌≡◌, refl, true, [], ◌∷◌, Result, ok, err, if◌then◌else◌, arith, some}
use rbln_k8s_dra_driver.Go.Text.{Text, codes, text_eq_refl}
use rbln_k8s_dra_driver.Go.FilePath.{FilePath, path_eq}
use rbln_k8s_dra_driver.Go.Errors.{OsError, not_exist}
use rbln_k8s_dra_driver.Claim.{PreparedClaims}
use rbln_k8s_dra_driver.Host.{Host}
use rbln_k8s_dra_driver.Host.Laws.{KeepsCheckpoint}
use rbln_k8s_dra_driver.Host.Files.{KeepsFiles}
use rbln_k8s_dra_driver.Metadata.{kubevirt_metadata_base_path}
use rbln_k8s_dra_driver.Tests.Host.{host}

abbrev pub Files : Type 0
Files = FilePath → Result OsError Text

abbrev pub FileNode : Type 0
FileNode = PreparedClaims × Files

abbrev pub put : FilePath → Result OsError Text → Files → Files
put p content files q = if path_eq p q then content else files q

abbrev pub file_host : Host
file_host = record {
  State = FileNode;
  read_file = λ s p. s.1 p;
  read_dir = λ s p. ok [];
  mkdir_all = λ p s. (ok tt, s);
  write_file = λ p content s. (ok tt, (s.0, put p (ok content) s.1));
  rename = λ p q s. (ok tt, (s.0, put q (s.1 p) (put p (err not_exist) s.1)));
  remove_all = λ p s. (ok tt, s);
  polls = λ s p. host.polls [] p;
  sysfs = λ s. host.sysfs [];
  get_checkpoint = λ s. ok s.0;
  create_checkpoint = λ claims s. (ok tt, (claims, s.1));
  write_spec = λ spec name s. (ok tt, s);
  remove_spec = λ name s. (ok tt, s);
  append_edits = host.append_edits;
  minimum_required_version = host.minimum_required_version;
  generate_name_for_transient_spec = host.generate_name_for_transient_spec;
  generate_transient_spec_name = host.generate_transient_spec_name;
  qualified_name = host.qualified_name;
  parse_spec = host.parse_spec;
  unmarshal_runtime_spec = host.unmarshal_runtime_spec;
  marshal_metadata = host.marshal_metadata;
  rsd_group = λ ids s. (ok (some (codes "dev" ∷ codes "rsd3" ∷ [])), s);
}

-- The node before: its files are the host's.
abbrev pub before : FileNode
before = ([], host.read_file [])

pub file_host-KeepsCheckpoint : KeepsCheckpoint file_host
file_host-KeepsCheckpoint = record {
  create-ok = λ claims s e. refl;
  create-err = λ claims s x e. absurd (ground arith);
  files = record {
    mkdir_all = λ p s. refl;
    write_file = λ p content s. refl;
    rename = λ p q s. refl;
    remove_all = λ p s. refl;
    rsd_group = λ ids s. refl;
  };
  write_spec = λ spec name s. refl;
  remove_spec = λ name s. refl;
}

path_eq_refl : (p : FilePath) → path_eq p p ≡ true
unfolding path_eq
path_eq_refl [] = refl
path_eq_refl (x ∷ p) = ground (arith, text_eq_refl x, path_eq_refl p)

pub file_host-KeepsFiles : KeepsFiles file_host kubevirt_metadata_base_path
file_host-KeepsFiles = record {
  mkdir_all = λ p q s content held. held;
  write-ok = λ p content s e. rw (path_eq_refl p) refl;
  write-other = λ p q content n s other held. rw n held;
  rename-ok = λ p q content s held e. rw (path_eq_refl q) held;
  rename-other = λ p q r content other s held n m there. rw (n, m) there;
  create_checkpoint = λ claims q s content held. held;
  write_spec = λ spec name q s content held. held;
}
