-- ===== src/Tests/Tree.antt =====
-- A host that keeps CDI specs, files and the listings of directories.
use rbln_k8s_dra_driver.Base.{
  ◌≡◌, refl, sym, ap, ◌∙◌, subst, true, List, [], ◌∷◌, ◌++◌, Result, ok, err, Option, if◌then◌else◌,
  arith, some, inl, inr, Member, Bool-cases,
}
use rbln_k8s_dra_driver.Go.Text.{Text, codes, text_eq, text_eq_refl}
use rbln_k8s_dra_driver.Go.FilePath.{
  FilePath, path_eq, drop_last, path_base, is_element, drop_last-append, path_base-append,
}
use rbln_k8s_dra_driver.Go.Errors.{OsError, not_exist}
use rbln_k8s_dra_driver.Go.Maps.{
  lookup, insert, delete, text_key, lookup-insert, lookup-insert_self, lookup-delete,
}
use rbln_k8s_dra_driver.Claim.{PreparedClaims, Spec}
use rbln_k8s_dra_driver.Host.{Host, DirEntry}
use rbln_k8s_dra_driver.Host.Laws.{KeepsCheckpoint}
use rbln_k8s_dra_driver.Host.Dirs.{KeepsDirs, is_under}
use rbln_k8s_dra_driver.Cdi.Specs.{KeepsSpecs}
use rbln_k8s_dra_driver.Metadata.{kubevirt_metadata_base_path}
use rbln_k8s_dra_driver.Prepare.Claims.{prepare}
use rbln_k8s_dra_driver.Tests.Files.{put}
use rbln_k8s_dra_driver.Tests.Host.{host, plugin, claim}
use rbln_k8s_dra_driver.Tests.Specs.{spec_host, spec_host-KeepsSpecs}

pub record Tree : Type 0 where
  pub claims : PreparedClaims
  pub specs : List (Text × Spec)
  pub files : FilePath → Result OsError Text
  pub listed : FilePath → List Text

abbrev pub specs_in : Tree → Text → Option Spec
specs_in s name = lookup name s.specs

-- The entries of a directory: only names of elements are listed.
unfoldable pub entries_of : List Text → List DirEntry
entries_of [] = []
entries_of (name ∷ names) =
    let rest = entries_of names in
    if is_element name then record { name = name; is_dir = true } ∷ rest else rest

unfoldable pub without : Text → List Text → List Text
without name [] = []
without name (x ∷ names) =
    let rest = without name names in if text_eq name x then rest else x ∷ rest

abbrev pub tree_host : Host
tree_host = record {
  State = Tree;
  read_file = λ s p. s.files p;
  read_dir = λ s p. ok (entries_of (s.listed p));
  mkdir_all = λ p s. (
    ok tt,
    record s {
      listed = λ q. if path_eq (drop_last p) q then path_base p ∷ s.listed q else s.listed q;
    },
  );
  write_file = λ p content s. (ok tt, record s { files = put p (ok content) s.files });
  rename = λ p q s. (ok tt, record s { files = put q (s.files p) (put p (err not_exist) s.files) });
  remove_all = λ p s. (
    ok tt,
    record s {
      files = λ q. if is_under p q then err not_exist else s.files q;
      listed =
          λ q. if path_eq (drop_last p) q then without (path_base p) (s.listed q) else s.listed q;
    },
  );
  polls = λ s p. host.polls [] p;
  sysfs = λ s. host.sysfs [];
  get_checkpoint = λ s. ok s.claims;
  create_checkpoint = λ claims s. (ok tt, record s { claims = claims });
  write_spec = λ spec name s. (ok tt, record s { specs = insert name spec s.specs });
  remove_spec = λ name s. (ok tt, record s { specs = delete name s.specs });
  append_edits = host.append_edits;
  minimum_required_version = host.minimum_required_version;
  generate_name_for_transient_spec = spec_host.generate_name_for_transient_spec;
  generate_transient_spec_name = spec_host.generate_transient_spec_name;
  qualified_name = host.qualified_name;
  parse_spec = host.parse_spec;
  unmarshal_runtime_spec = host.unmarshal_runtime_spec;
  marshal_metadata = host.marshal_metadata;
  rsd_group = λ ids s. (ok (some (codes "dev" ∷ codes "rsd3" ∷ [])), s);
}

pub tree_host-KeepsCheckpoint : KeepsCheckpoint tree_host
tree_host-KeepsCheckpoint = record {
  create-ok = λ claims s e. refl;
  create-err = λ claims s x e. absurd (ground arith);
  files = record {
    mkdir_all = λ p s. refl;
    write_file = λ p content s. refl;
    rename = λ p q s. refl;
    remove_all = λ p s. refl;
    rsd_group = λ ids s. refl;
  };
  write_spec = λ spec name s. refl;
  remove_spec = λ name s. refl;
}

pub tree_host-KeepsSpecs : KeepsSpecs tree_host specs_in
tree_host-KeepsSpecs = record {
  files = record {
    mkdir_all = λ p s. refl;
    write_file = λ p content s. refl;
    rename = λ p q s. refl;
    remove_all = λ p s. refl;
    rsd_group = λ ids s. refl;
  };
  create_checkpoint = λ claims s. refl;
  write-ok = λ spec name s e. lookup-insert_self name spec s.specs;
  write-err = λ spec name s x e. absurd (ground arith);
  write-other = λ spec name other s n. rw (lookup-insert name other spec s.specs, n) refl;
  remove-ok = λ name s e. rw (lookup-delete name name s.specs, text_eq_refl name) refl;
  remove-other = λ name other s n. rw (lookup-delete name other s.specs, n) refl;
  names-differ = spec_host-KeepsSpecs.names-differ;
  own_name = spec_host-KeepsSpecs.own_name;
}

entries_of-is_element :
    (names : List Text) (e : DirEntry) → Member e (entries_of names) → is_element e.name ≡ true
unfolding entries_of
entries_of-is_element [] e m = elim m [ ]
entries_of-is_element (name ∷ names) e m = elim (Bool-cases (is_element name)) [
  | inr other ↦ entries_of-is_element names e (rw other at m)
  | inl own ↦ elim (rw own at m) [
    | inl here ↦ ap (λ x. is_element x.name) here ∙ own
    | inr later ↦ entries_of-is_element names e later
  ]
]

listed-later :
    (x : Text) (names : List Text) (e : DirEntry)
    → Member e (entries_of names)
    → Member e (entries_of (x ∷ names))
unfolding entries_of
listed-later x names e m = elim (Bool-cases (is_element x)) [
  | inr other ↦ rw other m
  | inl own ↦ rw own (inr m)
]

without-listed :
    (name : Text) (names : List Text) (e : DirEntry)
    → Member e (entries_of (without name names))
    → Member e (entries_of names)
unfolding entries_of without
without-listed name [] e m = m
without-listed name (x ∷ names) e m = elim (Bool-cases (text_eq name x)) [
  | inl same ↦ listed-later x names e (without-listed name names e (rw same at m))
  | inr differs ↦ elim (Bool-cases (is_element x)) [
    | inr other ↦ listed-later x names e (without-listed name names e (rw (differs, other) at m))
    | inl own ↦ elim (rw (differs, own) at m) [
      | inl here ↦ rw own (inl here)
      | inr later ↦ listed-later x names e (without-listed name names e later)
    ]
  ]
]

is_under-append : (p q : FilePath) → is_under p (p ++ q) ≡ true
unfolding is_under
is_under-append [] q = refl
is_under-append (x ∷ p) q = ground (arith, text_eq_refl x, is_under-append p q)

path_eq_refl : (p : FilePath) → path_eq p p ≡ true
unfolding path_eq
path_eq_refl [] = refl
path_eq_refl (x ∷ p) = ground (arith, text_eq_refl x, path_eq_refl p)

ok-injective : {a b : List DirEntry} → Path (Result OsError (List DirEntry)) (ok a) (ok b) → a ≡ b
ok-injective e = ground arith

pub tree_host-KeepsDirs : KeepsDirs tree_host kubevirt_metadata_base_path
tree_host-KeepsDirs = record {
  names = λ dir s entries e r m.
      entries_of-is_element (s.listed dir) e (subst (Member e) (sym (ok-injective r)) m);
  remove-files = λ p q s e. rw (is_under-append p q) refl;
  remove-other_files = λ p q s n. rw n refl;
  remove-listed = λ dir name s entries e r m. (
    entries_of (s.listed dir),
    refl,
    without-listed name (s.listed dir) e (
        subst (Member e)
          (sym (ok-injective r)
            ∙ rw (drop_last-append dir name, path_eq_refl dir, path_base-append dir name) refl)
          m),
  );
  remove-other_dirs = λ dir other name s n u. rw (drop_last-append dir name, n) refl;
  create_checkpoint-files = λ claims q s. refl;
  create_checkpoint-dirs = λ claims q s. refl;
}

abbrev pub bare : Tree
bare = record { claims = []; specs = []; files = host.read_file []; listed = λ p. [] }

abbrev pub grown : Tree
grown = (prepare tree_host plugin claim bare).1
