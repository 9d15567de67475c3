-- ===== src/Prepare/Resolved.antt =====
-- Which CDI ids of prepared devices the container runtime can resolve: `Prepare` and `Unprepare` of
-- cmd/npu-kubelet-plugin/state.go with the specs of cdi.go.
use rbln_k8s_dra_driver.Base.{
  ◌≡◌, refl, sym, ap, ◌∙◌, subst, Bool, true, false, List, [], ◌∷◌, Result, ok, err, Option, some,
  arith, inl, inr, ◌⊎◌, Member,
}
use rbln_k8s_dra_driver.Go.Text.{Text, codes, text_eq}
use rbln_k8s_dra_driver.Go.Errors.{Error}
use rbln_k8s_dra_driver.Go.Maps.{text_key}
use rbln_k8s_dra_driver.Claim.{
  Claim, DraDevice, PreparedDevice, PreparedDevices, CdiDevice, Spec, get_devices,
}
use rbln_k8s_dra_driver.Host.{Host}
use rbln_k8s_dra_driver.Host.Laws.{KeepsCheckpoint}
use rbln_k8s_dra_driver.Cdi.{
  CdiHandler, vendor, claim_device_name, claim_spec_devices, claim_device_ids, get_claim_devices,
}
use rbln_k8s_dra_driver.Cdi.Specs.{KeepsSpecs, IsClaimUid, Defines, spec_name}
use rbln_k8s_dra_driver.Prepare.Devices.{Plugin}
use rbln_k8s_dra_driver.Prepare.Claims.{prepare, unprepare, prepared_for}
use rbln_k8s_dra_driver.Prepare.Laws.{prepare_success}
use rbln_k8s_dra_driver.Prepare.Specs.{IsBacked, AllBacked}
use rbln_k8s_dra_driver.Prepare.Runs.{IsServed, Served, prepare-Served, unprepare-Served}
use rbln_k8s_dra_driver.Prepare.Refinement.{
  Call, prepare_call, unprepare_call, Event, unprepared, unprepare_event, call, run,
}

claim_spec_devices-Member :
    (h : Host) (claim_uid : Text) (d : PreparedDevice) (devices : PreparedDevices)
    → Member d devices
    → (c : CdiDevice) × Member c (claim_spec_devices h claim_uid devices)
      × (c.name ≡ claim_device_name claim_uid d.device_name)
unfolding claim_spec_devices
claim_spec_devices-Member h claim_uid d [] m = elim m [ ]
claim_spec_devices-Member h claim_uid d (x ∷ devices) (inl e) = (_, inl refl, rw e refl)
claim_spec_devices-Member h claim_uid d (x ∷ devices) (inr m) =
    let (c, n, same) = claim_spec_devices-Member h claim_uid d devices m in (c, inr n, same)

get_devices-Member :
    (x : DraDevice) (devices : PreparedDevices)
    → Member x (get_devices devices)
    → (d : PreparedDevice) × Member d devices × (x.cdi_device_ids ≡ d.cdi_device_ids)
unfolding get_devices
get_devices-Member x [] m = elim m [ ]
get_devices-Member x (d ∷ devices) (inl e) = (d, inl refl, rw e refl)
get_devices-Member x (d ∷ devices) (inr m) =
    let (found, n, same) = get_devices-Member x devices m in (found, inr n, same)

claim_id-cases :
    (h : Host) (cdi : CdiHandler) (claim_uid name id : Text) (include_common : Bool)
    → Member id (get_claim_devices h cdi claim_uid (name ∷ []) include_common)
    → ((include_common ≡ true) × (id ≡ h.qualified_name vendor cdi.class (codes "common")))
      ⊎ (id ≡ h.qualified_name vendor cdi.class (claim_device_name claim_uid name))
unfolding get_claim_devices claim_device_ids
claim_id-cases h cdi claim_uid name id true (inl e) = inl (refl, e)
claim_id-cases h cdi claim_uid name id true (inr (inl e)) = inr e
claim_id-cases h cdi claim_uid name id false (inl e) = inr e
claim_id-cases h cdi claim_uid name id true (inr (inr m)) = elim m [ ]
claim_id-cases h cdi claim_uid name id false (inr m) = elim m [ ]

unprepared-ok :
    (claim_uid : Text) (r : Result Error (Unit {0}))
    → unprepare_event claim_uid r ≡ unprepared claim_uid
    → r ≡ ok tt
unprepared-ok claim_uid (ok u) e = refl
unprepared-ok claim_uid (err x) e = absurd (cc)

module _ (h : Host) (cdi : CdiHandler) (specs : h.State → Text → Option Spec) where
  -- Some spec on the node defines this id.
  abbrev pub Resolves : h.State → Text → Type 0
  Resolves s id = (name : Text) × (spec : Spec) × (specs s name ≡ some spec) × Defines h cdi spec id

  AllBacked-Member :
      (claim_uid : Text) (s : h.State) (d : PreparedDevice) (devices : PreparedDevices)
      → AllBacked h cdi specs claim_uid s devices
      → Member d devices
      → IsBacked h cdi specs claim_uid s d
  AllBacked-Member claim_uid s d [] b m = elim m [ ]
  AllBacked-Member claim_uid s d (x ∷ devices) (b, bs) (inl e) =
      subst (λ t. IsBacked h cdi specs claim_uid s t) (sym e) b
  AllBacked-Member claim_uid s d (x ∷ devices) (b, bs) (inr m) =
      AllBacked-Member claim_uid s d devices bs m

  IsServed-Resolves :
      (claim_uid : Text) (s : h.State) (d : PreparedDevice) (devices : PreparedDevices) (id : Text)
      → IsServed h cdi specs claim_uid devices s
      → Member d devices
      → Member id d.cdi_device_ids
      → Resolves s id
  IsServed-Resolves claim_uid s d devices id (inl e) m n = elim (subst (Member d) e m) [ ]
  IsServed-Resolves claim_uid s d devices id (inr (own, backed)) m n =
      let b = AllBacked-Member claim_uid s d devices backed m in
      elim (claim_id-cases h cdi claim_uid d.device_name id b.include_common
        (subst (Member id) b.ids n)) [
          | inl (included, e) ↦
              let common = b.common included in
              (
                spec_name h cdi (codes "common"),
                common.spec,
                common.there,
                (
                  record { name = codes "common"; container_edits = common.edits },
                  common.same_kind,
                  rw common.defines (inl refl),
                  e,
                ),
              )
          | inr e ↦
              let (x, there, same) = claim_spec_devices-Member h claim_uid d devices m in
              (
                spec_name h cdi claim_uid,
                own.spec,
                own.there,
                (x, own.same_kind, rw own.defines there, rw same e),
              )
        ]

-- A call of the plugin with this CDI handler, for a claim with a proper UID.
abbrev pub IsSound : CdiHandler → Call → Type 0
IsSound cdi (prepare_call p claim) = (p.cdi ≡ cdi) × IsClaimUid claim.uid
IsSound cdi (unprepare_call p other) = (p.cdi ≡ cdi) × IsClaimUid other

-- The call is no `Unprepare` of this claim, or it succeeds.
abbrev pub IsDone : Text → Call → Event → Type 0
IsDone claim_uid (prepare_call p claim) event = Unit
IsDone claim_uid (unprepare_call p other) event =
    text_eq other claim_uid ≡ true → event ≡ unprepared other

abbrev pub AllDone : (h : Host) → CdiHandler → Text → List Call → h.State → Type 0
AllDone h cdi claim_uid [] s = Unit
AllDone h cdi claim_uid (x ∷ calls) s =
    IsSound cdi x × IsDone claim_uid x (call h x s).0 × AllDone h cdi claim_uid calls (call h x s).1

module _ (h : Host) (k : KeepsCheckpoint h) (specs : h.State → Text → Option Spec)
    (c : KeepsSpecs h specs) (cdi : CdiHandler) (claim_uid : Text) where
  call-Served :
      (x : Call) (s : h.State)
      → IsClaimUid claim_uid
      → IsSound cdi x
      → IsDone claim_uid x (call h x s).0
      → Served h cdi specs claim_uid s
      → Served h cdi specs claim_uid (call h x s).1
  unfolding call
  call-Served (prepare_call p claim) s u (e, v) done served =
      subst (λ t. Served h t specs claim_uid (prepare h p claim s).1) e
        (prepare-Served h k specs c p claim claim_uid s v u
          (subst (λ t. Served h t specs claim_uid s) (sym e) served))
  call-Served (unprepare_call p other) s u (e, v) done served =
      subst (λ t. Served h t specs claim_uid (unprepare h p other s).1) e
        (unprepare-Served h k specs c p other claim_uid s v u (λ q. unprepared-ok other _ (done q))
          (subst (λ t. Served h t specs claim_uid s) (sym e) served))

  -- Where the checkpoint and the CDI specs are kept as documented: a claim that is served, which one
  -- without prepared devices is, stays served over any sequence of calls of `Prepare` and
  -- `Unprepare`, whichever of them fail, unless an `Unprepare` of this very claim fails: the devices
  -- that the checkpoint holds for it are those of its CDI spec, in the same order, and their ids are
  -- the ones of this spec and, for some, the id of the common spec, which is then there.
  pub run-Served :
      (calls : List Call) (s : h.State)
      → IsClaimUid claim_uid
      → AllDone h cdi claim_uid calls s
      → Served h cdi specs claim_uid s
      → Served h cdi specs claim_uid (run h calls s).1
  unfolding run
  run-Served [] s u all served = served
  run-Served (x ∷ calls) s u (sound, done, all) served =
      run-Served calls (call h x s).1 u all (call-Served x s u sound done served)

-- Where the checkpoint and the CDI specs are kept as documented, and the claim is served: each CDI
-- id of each device that a successful `Prepare` of it returns is defined by a CDI spec on the node.
pub prepare-Resolves :
    (h : Host) (k : KeepsCheckpoint h) (specs : h.State → Text → Option Spec)
    (c : KeepsSpecs h specs) (p : Plugin) (claim : Claim) (s : h.State) (ds : List DraDevice)
    (d : DraDevice) (id : Text)
    → IsClaimUid claim.uid
    → Served h p.cdi specs claim.uid s
    → (prepare h p claim s).0 ≡ ok ds
    → Member d ds
    → Member id d.cdi_device_ids
    → Resolves h p.cdi specs (prepare h p claim s).1 id
prepare-Resolves h k specs c p claim s ds d id u (claims, read, served) r m n =
    let (after, t, q, same) = prepare_success h k p claim claims s ds read r in
    let (held, held_read, later) =
      prepare-Served h k specs c p claim claim.uid s u u (claims, read, served) in
    let one : held ≡ after = ground arith in
    let (made, there, ids) =
      get_devices-Member d (prepared_for held claim.uid)
        (subst (Member d) (sym (ap (λ x. get_devices (prepared_for x claim.uid)) one ∙ q)) m) in
    IsServed-Resolves h p.cdi specs claim.uid _ made (prepared_for held claim.uid) id later there
      (subst (Member id) ids n)
