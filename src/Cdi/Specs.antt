-- ===== src/Cdi/Specs.antt =====
-- The CDI specs on the node, as the container runtime finds them under their names: what the calls
-- of cmd/npu-kubelet-plugin/cdi.go leave there.
use rbln_k8s_dra_driver.Base.{
  ◌≡◌, ap, ◌∙◌, true, false, [], ◌∷◌, ◌++◌, ok, err, Option, none, some, Member,
}
use rbln_k8s_dra_driver.Go.Text.{Text, codes, text_eq}
use rbln_k8s_dra_driver.Go.FilePath.{has_no_slash}
use rbln_k8s_dra_driver.Go.Errors.{Error}
use rbln_k8s_dra_driver.Claim.{ContainerEdits, PreparedDevices, PreparedClaims, CdiDevice, Spec}
use rbln_k8s_dra_driver.Host.{Host}
use rbln_k8s_dra_driver.Host.Laws.{Keeps, Untouched}
use rbln_k8s_dra_driver.Cdi.{CdiHandler, vendor, kind, claim_spec_devices}

-- The specs that the library's cache keeps in its directory: a written spec is found under its name,
-- a failed call changes nothing, and no other name is touched. The name of a transient spec
-- contains the id that it was asked for, in which the library replaces slashes.
pub record KeepsSpecs (h : Host) (specs : h.State → Text → Option Spec) : Type 0 where
  pub files : Untouched h specs
  pub create_checkpoint : (claims : PreparedClaims) → Keeps h specs (h.create_checkpoint claims)
  pub write-ok :
      (spec : Spec) (name : Text) (s : h.State)
      → (h.write_spec spec name s).0 ≡ ok tt
      → specs (h.write_spec spec name s).1 name ≡ some spec
  pub write-err :
      (spec : Spec) (name : Text) (s : h.State) (e : Error)
      → (h.write_spec spec name s).0 ≡ err e
      → specs (h.write_spec spec name s).1 ≡ specs s
  pub write-other :
      (spec : Spec) (name other : Text) (s : h.State)
      → text_eq name other ≡ false
      → specs (h.write_spec spec name s).1 other ≡ specs s other
  pub remove-ok :
      (name : Text) (s : h.State)
      → (h.remove_spec name s).0 ≡ ok tt
      → specs (h.remove_spec name s).1 name ≡ none
  pub remove-other :
      (name other : Text) (s : h.State)
      → text_eq name other ≡ false
      → specs (h.remove_spec name s).1 other ≡ specs s other
  pub names-differ :
      (v class id other : Text)
      → has_no_slash id ≡ true
      → has_no_slash other ≡ true
      → text_eq id other ≡ false
      → text_eq
          (h.generate_transient_spec_name v class id)
          (h.generate_transient_spec_name v class other)
        ≡ false
  pub own_name :
      (v class id name : Text) (spec : Spec)
      → has_no_slash v ≡ true
      → spec.kind ≡ v ++ codes "/" ++ class
      → h.generate_name_for_transient_spec spec id ≡ ok name
      → name ≡ h.generate_transient_spec_name v class id

-- A UID, which is not the id of the common spec.
pub record IsClaimUid (claim_uid : Text) : Type 0 where
  pub plain : has_no_slash claim_uid ≡ true
  pub own : text_eq (codes "common") claim_uid ≡ false

module _ (h : Host) (cdi : CdiHandler) where
  abbrev pub spec_name : Text → Text
  spec_name id = h.generate_transient_spec_name vendor cdi.class id

  -- The runtime resolves a qualified name by a spec of its kind that defines the device.
  abbrev pub Defines : Spec → Text → Type 0
  Defines spec id =
      (d : CdiDevice) × (spec.kind ≡ kind cdi)
      × Member d spec.devices
      × (id ≡ h.qualified_name vendor cdi.class d.name)

module _ (h : Host) (cdi : CdiHandler) (specs : h.State → Text → Option Spec) where
  -- The spec that was written for these devices of the claim.
  pub record HasClaimSpec (claim_uid : Text) (devices : PreparedDevices) (s : h.State)
      : Type 0 where
    pub spec : Spec
    pub there : specs s (spec_name h cdi claim_uid) ≡ some spec
    pub same_kind : spec.kind ≡ kind cdi
    pub defines : spec.devices ≡ claim_spec_devices h claim_uid devices

  -- The spec of the runtime's edits, which defines one device.
  pub record HasCommonSpec (s : h.State) : Type 0 where
    pub spec : Spec
    pub edits : ContainerEdits
    pub there : specs s (spec_name h cdi (codes "common")) ≡ some spec
    pub same_kind : spec.kind ≡ kind cdi
    pub defines : spec.devices ≡ record { name = codes "common"; container_edits = edits } ∷ []

  -- What a step leaves of the specs that the containers of a claim rely on.
  pub record LeavesSpecs (claim_uid : Text) (s s' : h.State) : Type 0 where
    pub claim_spec : specs s' (spec_name h cdi claim_uid) ≡ specs s (spec_name h cdi claim_uid)
    pub common_spec : HasCommonSpec s → HasCommonSpec s'

  pub then-LeavesSpecs :
      (claim_uid : Text) (s s' s'' : h.State)
      → LeavesSpecs claim_uid s s'
      → LeavesSpecs claim_uid s' s''
      → LeavesSpecs claim_uid s s''
  then-LeavesSpecs claim_uid s s' s'' l m = record {
    claim_spec = m.claim_spec ∙ l.claim_spec;
    common_spec = λ c. m.common_spec (l.common_spec c);
  }

  -- A step that changes no spec but that of another claim.
  pub other-LeavesSpecs :
      (claim_uid : Text) (s s' : h.State)
      → specs s' (spec_name h cdi claim_uid) ≡ specs s (spec_name h cdi claim_uid)
      → specs s' (spec_name h cdi (codes "common")) ≡ specs s (spec_name h cdi (codes "common"))
      → LeavesSpecs claim_uid s s'
  other-LeavesSpecs claim_uid s s' e c = record {
    claim_spec = e;
    common_spec = λ k. record {
      spec = k.spec;
      edits = k.edits;
      there = c ∙ k.there;
      same_kind = k.same_kind;
      defines = k.defines;
    };
  }

  pub same-LeavesSpecs :
      (claim_uid : Text) (s s' : h.State) → specs s' ≡ specs s → LeavesSpecs claim_uid s s'
  same-LeavesSpecs claim_uid s s' e =
      other-LeavesSpecs claim_uid s s' (ap (λ f. f (spec_name h cdi claim_uid)) e)
        (ap (λ f. f (spec_name h cdi (codes "common"))) e)

  pub HasClaimSpec-later :
      (claim_uid : Text) (devices : PreparedDevices) (s s' : h.State)
      → LeavesSpecs claim_uid s s'
      → HasClaimSpec claim_uid devices s
      → HasClaimSpec claim_uid devices s'
  HasClaimSpec-later claim_uid devices s s' l c = record {
    spec = c.spec;
    there = l.claim_spec ∙ c.there;
    same_kind = c.same_kind;
    defines = c.defines;
  }
