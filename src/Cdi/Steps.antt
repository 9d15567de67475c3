-- ===== src/Cdi/Steps.antt =====
-- What the calls of cmd/npu-kubelet-plugin/cdi.go do to the CDI specs.
use rbln_k8s_dra_driver.Base.{
  ◌≡◌, refl, sym, ap, ◌∙◌, true, false, [], ◌∷◌, ok, err, Option, arith, inl, inr, ◌⊎◌,
  Result-cases,
}
use rbln_k8s_dra_driver.Go.Text.{Text, codes, text_eq, text_eq_sym}
use rbln_k8s_dra_driver.Go.Errors.{Error, wrap}
use rbln_k8s_dra_driver.Claim.{ContainerEdits, PreparedDevices, Spec}
use rbln_k8s_dra_driver.Host.{Host, ◌>>=◌}
use rbln_k8s_dra_driver.Cdi.{
  CdiHandler, vendor, kind, claim_spec_devices, get_runtime_umd_edits, create_common_spec_file,
  create_claim_spec_file, delete_claim_spec_file,
}
use rbln_k8s_dra_driver.Go.FilePath.{has_no_slash}
use rbln_k8s_dra_driver.Cdi.Specs.{
  KeepsSpecs, IsClaimUid, spec_name, HasClaimSpec, HasCommonSpec, LeavesSpecs, other-LeavesSpecs,
  same-LeavesSpecs,
}

common_plain : has_no_slash (codes "common") ≡ true
unfolding has_no_slash
common_plain = refl

vendor_plain : has_no_slash vendor ≡ true
unfolding has_no_slash vendor
vendor_plain = refl

module _ (h : Host) (cdi : CdiHandler) (specs : h.State → Text → Option Spec)
    (k : KeepsSpecs h specs) where
  claim-common :
      (claim_uid : Text)
      → IsClaimUid claim_uid
      → text_eq (spec_name h cdi claim_uid) (spec_name h cdi (codes "common")) ≡ false
  claim-common claim_uid u =
      text_eq_sym (spec_name h cdi claim_uid) (spec_name h cdi (codes "common"))
      ∙ k.names-differ vendor cdi.class (codes "common") claim_uid common_plain u.plain u.own

  -- `CreateCommonSpecFile` fails before it writes, or it writes this spec.
  create_common_spec_file-cases :
      (s : h.State)
      → ((e : Error) × (create_common_spec_file h cdi s ≡ (err e, s)))
        ⊎ ((spec : Spec) × (edits : ContainerEdits) × (create_common_spec_file h cdi s
              ≡ h.write_spec spec (spec_name h cdi (codes "common")) s)
            × (spec.kind ≡ kind cdi)
            × (spec.devices ≡ record { name = codes "common"; container_edits = edits } ∷ []))
  unfolding create_common_spec_file kind
  create_common_spec_file-cases s = elim (Result-cases (get_runtime_umd_edits h cdi s)) [
    | inr (e, r) ↦ inl (wrap "failed to get runtime UMD edits" e, rw (r, ◌>>=◌) refl)
    | inl ((mounts, hooks), r) ↦
        let edits : ContainerEdits = record { device_nodes = []; mounts = mounts; hooks = hooks } in
        let spec : Spec = record {
          version = [];
          kind = kind cdi;
          devices = record { name = codes "common"; container_edits = edits } ∷ [];
        } in
        elim (Result-cases (h.minimum_required_version spec)) [
          | inr (e, v) ↦
              inl (wrap "failed to get minimum required CDI spec version" e, rw (r, v, ◌>>=◌) refl)
          | inl (version, v) ↦
              elim (Result-cases (h.generate_name_for_transient_spec spec (codes "common"))) [
                | inr (e, n) ↦ inl (wrap "failed to generate Spec name" e, rw (r, v, n, ◌>>=◌) refl)
                | inl (name, n) ↦ inr (
                  record spec { version = version },
                  edits,
                  rw (r, v, n, ◌>>=◌)
                      (ap (λ t. h.write_spec (record spec { version = version }) t s)
                        (k.own_name vendor cdi.class (codes "common") name spec vendor_plain refl
                          n)),
                  refl,
                  refl,
                )
              ]
        ]
  ]

  pub create_common_spec_file-LeavesSpecs :
      (claim_uid : Text) (s : h.State)
      → IsClaimUid claim_uid
      → LeavesSpecs h cdi specs claim_uid s (create_common_spec_file h cdi s).1
  create_common_spec_file-LeavesSpecs claim_uid s u = elim (create_common_spec_file-cases s) [
    | inl (e, c) ↦ same-LeavesSpecs h cdi specs claim_uid s _ (ap (λ r. specs r.1) c)
    | inr (spec, edits, c, same_kind, defines) ↦ record {
      claim_spec =
          ap (λ r. specs r.1 (spec_name h cdi claim_uid)) c
          ∙ k.write-other spec _ _ s (
              k.names-differ vendor cdi.class (codes "common") claim_uid common_plain u.plain
                u.own);
      common_spec = λ old.
          elim (Result-cases (h.write_spec spec (spec_name h cdi (codes "common")) s).0) [
            | inl (done, w) ↦ record {
              spec = spec;
              edits = edits;
              there =
                  ap (λ r. specs r.1 (spec_name h cdi (codes "common"))) c ∙ k.write-ok spec _ s w;
              same_kind = same_kind;
              defines = defines;
            }
            | inr (x, w) ↦
                (same-LeavesSpecs h cdi specs claim_uid s _
                    (ap (λ r. specs r.1) c ∙ k.write-err spec _ s x w)).common_spec
                  old
          ];
    }
  ]

  pub create_common_spec_file-HasCommonSpec :
      (s : h.State)
      → (create_common_spec_file h cdi s).0 ≡ ok tt
      → HasCommonSpec h cdi specs (create_common_spec_file h cdi s).1
  create_common_spec_file-HasCommonSpec s e = elim (create_common_spec_file-cases s) [
    | inl (x, c) ↦ absurd (ground (arith, ap (λ r. r.0) c))
    | inr (spec, edits, c, same_kind, defines) ↦ record {
      spec = spec;
      edits = edits;
      there =
          ap (λ r. specs r.1 (spec_name h cdi (codes "common"))) c
          ∙ k.write-ok spec _ s (sym (ap (λ r. r.0) c) ∙ e);
      same_kind = same_kind;
      defines = defines;
    }
  ]

  create_claim_spec_file-cases :
      (claim_uid : Text) (devices : PreparedDevices) (s : h.State)
      → ((e : Error) × (create_claim_spec_file h cdi claim_uid devices s ≡ (err e, s)))
        ⊎ ((spec : Spec) × (create_claim_spec_file h cdi claim_uid devices s
              ≡ h.write_spec spec (spec_name h cdi claim_uid) s)
            × (spec.kind ≡ kind cdi)
            × (spec.devices ≡ claim_spec_devices h claim_uid devices))
  unfolding create_claim_spec_file
  create_claim_spec_file-cases claim_uid devices s =
      let spec : Spec = record {
        version = [];
        kind = kind cdi;
        devices = claim_spec_devices h claim_uid devices;
      } in
      elim (Result-cases (h.minimum_required_version spec)) [
        | inr (e, v) ↦
            inl (wrap "failed to get minimum required CDI spec version" e, rw (v, ◌>>=◌) refl)
        | inl (version, v) ↦ inr (record spec { version = version }, rw (v, ◌>>=◌) refl, refl, refl)
      ]

  pub create_claim_spec_file-LeavesSpecs :
      (claim_uid other : Text) (devices : PreparedDevices) (s : h.State)
      → IsClaimUid claim_uid
      → IsClaimUid other
      → text_eq claim_uid other ≡ false
      → LeavesSpecs h cdi specs other s (create_claim_spec_file h cdi claim_uid devices s).1
  create_claim_spec_file-LeavesSpecs claim_uid other devices s u v n =
      elim (create_claim_spec_file-cases claim_uid devices s) [
        | inl (e, c) ↦ same-LeavesSpecs h cdi specs other s _ (ap (λ r. specs r.1) c)
        | inr (spec, c, same_kind, defines) ↦
            other-LeavesSpecs h cdi specs other s _
              (ap (λ r. specs r.1 (spec_name h cdi other)) c
                ∙ k.write-other spec _ _ s (k.names-differ vendor cdi.class _ _ u.plain v.plain n))
              (ap (λ r. specs r.1 (spec_name h cdi (codes "common"))) c
                ∙ k.write-other spec _ _ s (claim-common claim_uid u))
      ]

  -- The claim's own spec is not the one that its containers share with others.
  pub create_claim_spec_file-HasCommonSpec :
      (claim_uid : Text) (devices : PreparedDevices) (s : h.State)
      → IsClaimUid claim_uid
      → HasCommonSpec h cdi specs s
      → HasCommonSpec h cdi specs (create_claim_spec_file h cdi claim_uid devices s).1
  create_claim_spec_file-HasCommonSpec claim_uid devices s u old =
      elim (create_claim_spec_file-cases claim_uid devices s) [
        | inl (e, c) ↦
            (same-LeavesSpecs h cdi specs claim_uid s _ (ap (λ r. specs r.1) c)).common_spec old
        | inr (spec, c, same_kind, defines) ↦ record {
          spec = old.spec;
          edits = old.edits;
          there =
              ap (λ r. specs r.1 (spec_name h cdi (codes "common"))) c
              ∙ k.write-other spec _ _ s (claim-common claim_uid u)
              ∙ old.there;
          same_kind = old.same_kind;
          defines = old.defines;
        }
      ]

  pub create_claim_spec_file-HasClaimSpec :
      (claim_uid : Text) (devices : PreparedDevices) (s : h.State)
      → (create_claim_spec_file h cdi claim_uid devices s).0 ≡ ok tt
      → HasClaimSpec h cdi specs claim_uid devices
          (create_claim_spec_file h cdi claim_uid devices s).1
  create_claim_spec_file-HasClaimSpec claim_uid devices s e =
      elim (create_claim_spec_file-cases claim_uid devices s) [
        | inl (x, c) ↦ absurd (ground (arith, ap (λ r. r.0) c))
        | inr (spec, c, same_kind, defines) ↦ record {
          spec = spec;
          there =
              ap (λ r. specs r.1 (spec_name h cdi claim_uid)) c
              ∙ k.write-ok spec _ s (sym (ap (λ r. r.0) c) ∙ e);
          same_kind = same_kind;
          defines = defines;
        }
      ]

  pub delete_claim_spec_file-LeavesSpecs :
      (claim_uid other : Text) (s : h.State)
      → IsClaimUid claim_uid
      → IsClaimUid other
      → text_eq claim_uid other ≡ false
      → LeavesSpecs h cdi specs other s (delete_claim_spec_file h cdi claim_uid s).1
  unfolding delete_claim_spec_file
  delete_claim_spec_file-LeavesSpecs claim_uid other s u v n =
      other-LeavesSpecs h cdi specs other s _
        (k.remove-other _ _ s (k.names-differ vendor cdi.class _ _ u.plain v.plain n))
        (k.remove-other _ _ s (claim-common claim_uid u))
