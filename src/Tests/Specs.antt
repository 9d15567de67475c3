-- ===== src/Tests/Specs.antt =====
-- A host that keeps CDI specs under their names.
use rbln_k8s_dra_driver.Base.{
  ◌==◌, ◌≡◌, refl, sym, ap, ◌∙◌, true, List, [], ◌∷◌, ◌++◌, Result, ok, err, Option, some,
  if◌then◌else◌, arith,
}
use rbln_k8s_dra_driver.Go.Text.{Text, codes, text_eq, text_eq_refl}
use rbln_k8s_dra_driver.Go.FilePath.{has_no_slash, slash}
use rbln_k8s_dra_driver.Go.Errors.{Error, message}
use rbln_k8s_dra_driver.Go.Maps.{
  lookup, insert, delete, text_key, lookup-insert, lookup-insert_self, lookup-delete,
}
use rbln_k8s_dra_driver.Claim.{PreparedClaims, Spec}
use rbln_k8s_dra_driver.Host.{Host}
use rbln_k8s_dra_driver.Host.Laws.{KeepsCheckpoint}
use rbln_k8s_dra_driver.Cdi.Specs.{KeepsSpecs}
use rbln_k8s_dra_driver.Prepare.Claims.{prepare}
use rbln_k8s_dra_driver.Tests.Host.{host, plugin, claim}

-- The name of a kind's specs: its first slash becomes a dash.
unfoldable pub dash_slash : Text → Text
dash_slash [] = []
dash_slash (c ∷ s) = let rest = dash_slash s in if c == slash then codes "-" ++ s else c ∷ rest

abbrev pub Node : Type 0
Node = PreparedClaims × List (Text × Spec)

abbrev pub specs_on : Node → Text → Option Spec
specs_on s name = lookup name s.1

abbrev pub spec_host : Host
spec_host = record {
  State = Node;
  read_file = λ s p. host.read_file [] p;
  read_dir = λ s p. ok [];
  mkdir_all = λ p s. (ok tt, s);
  write_file = λ p content s. (ok tt, s);
  rename = λ p q s. (ok tt, s);
  remove_all = λ p s. (ok tt, s);
  polls = λ s p. host.polls [] p;
  sysfs = λ s. host.sysfs [];
  get_checkpoint = λ s. ok s.0;
  create_checkpoint = λ claims s. (ok tt, (claims, s.1));
  write_spec = λ spec name s. (ok tt, (s.0, insert name spec s.1));
  remove_spec = λ name s. (ok tt, (s.0, delete name s.1));
  append_edits = host.append_edits;
  minimum_required_version = host.minimum_required_version;
  generate_name_for_transient_spec = λ spec id. ok (dash_slash spec.kind ++ (codes "_" ++ id));
  generate_transient_spec_name =
      λ vendor class id. (vendor ++ codes "-" ++ class) ++ (codes "_" ++ id);
  qualified_name = host.qualified_name;
  parse_spec = host.parse_spec;
  unmarshal_runtime_spec = host.unmarshal_runtime_spec;
  marshal_metadata = host.marshal_metadata;
  rsd_group = λ ids s. (ok (some (codes "dev" ∷ codes "rsd3" ∷ [])), s);
}

pub spec_host-KeepsCheckpoint : KeepsCheckpoint spec_host
spec_host-KeepsCheckpoint = record {
  create-ok = λ claims s e. refl;
  create-err = λ claims s x e. absurd (ground arith);
  files = record {
    mkdir_all = λ p s. refl;
    write_file = λ p content s. refl;
    rename = λ p q s. refl;
    remove_all = λ p s. refl;
    rsd_group = λ ids s. refl;
  };
  write_spec = λ spec name s. refl;
  remove_spec = λ name s. refl;
}

text_eq-append : (p s t : Text) → text_eq (p ++ s) (p ++ t) ≡ text_eq s t
unfolding text_eq
text_eq-append [] s t = refl
text_eq-append (c ∷ p) s t = ground (arith, text_eq-append p s t)

dash_slash-append :
    (v class : Text)
    → has_no_slash v ≡ true
    → dash_slash (v ++ codes "/" ++ class) ≡ v ++ codes "-" ++ class
unfolding dash_slash has_no_slash
dash_slash-append [] class e = refl
dash_slash-append (c ∷ v) class e = ground (arith, dash_slash-append v class)

ok-injective : {a b : Text} → Path (Result Error Text) (ok a) (ok b) → a ≡ b
ok-injective e = ground arith

pub spec_host-KeepsSpecs : KeepsSpecs spec_host specs_on
spec_host-KeepsSpecs = record {
  files = record {
    mkdir_all = λ p s. refl;
    write_file = λ p content s. refl;
    rename = λ p q s. refl;
    remove_all = λ p s. refl;
    rsd_group = λ ids s. refl;
  };
  create_checkpoint = λ claims s. refl;
  write-ok = λ spec name s e. lookup-insert_self name spec s.1;
  write-err = λ spec name s x e. absurd (ground arith);
  write-other = λ spec name other s n. rw (lookup-insert name other spec s.1, n) refl;
  remove-ok = λ name s e. rw (lookup-delete name name s.1, text_eq_refl name) refl;
  remove-other = λ name other s n. rw (lookup-delete name other s.1, n) refl;
  names-differ = λ v class id other p q n.
      text_eq-append (v ++ codes "-" ++ class) (codes "_" ++ id) (codes "_" ++ other)
      ∙ text_eq-append (codes "_") id other
      ∙ n;
  own_name = λ v class id name spec p same e.
      sym (ok-injective e)
      ∙ ap (λ t. t ++ (codes "_" ++ id)) (ap dash_slash same ∙ dash_slash-append v class p);
}

-- The host on which the checkpoint can no longer be written.
abbrev pub full_host : Host
full_host = record spec_host { create_checkpoint = λ claims s. (err (message "no space left"), s) }

abbrev pub prepared : Node
prepared = (prepare spec_host plugin claim ([], [])).1
