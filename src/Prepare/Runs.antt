-- ===== src/Prepare/Runs.antt =====
-- The containers of prepared claims find their devices: the checkpoint and the CDI specs together,
-- over sequences of `Prepare` and `Unprepare` of cmd/npu-kubelet-plugin/state.go.
use rbln_k8s_dra_driver.Base.{
  ◌≡◌, refl, sym, ◌∙◌, subst, true, false, [], ◌∷◌, ok, Option, inl, inr, ◌⊎◌, Result-cases,
  Bool-cases,
}
use rbln_k8s_dra_driver.Go.Text.{Text, text_eq, text_eq_sound}
use rbln_k8s_dra_driver.Go.Maps.{insert, text_key}
use rbln_k8s_dra_driver.Claim.{Claim, PreparedDevices, PreparedClaims, Spec}
use rbln_k8s_dra_driver.Host.{Host}
use rbln_k8s_dra_driver.Host.Laws.{KeepsCheckpoint}
use rbln_k8s_dra_driver.Cdi.{CdiHandler}
use rbln_k8s_dra_driver.Cdi.Specs.{
  KeepsSpecs, IsClaimUid, HasClaimSpec, LeavesSpecs, HasClaimSpec-later, same-LeavesSpecs,
}
use rbln_k8s_dra_driver.Prepare.Devices.{Plugin}
use rbln_k8s_dra_driver.Prepare.Claims.{
  prepare_fresh, prepare_unless, prepare, unprepare, prepared_for,
}
use rbln_k8s_dra_driver.Prepare.Steps.{prepare_fresh-ok, prepare_fresh-FailsQuiet}
use rbln_k8s_dra_driver.Prepare.Laws.{
  prepare_reads, unprepare_reads, prepare_success, prepare_failure, unprepare_success,
  unprepare_failure, prepared_for-insert, SameOthers,
}
use rbln_k8s_dra_driver.Prepare.Specs.{AllBacked, AllBacked-later}
use rbln_k8s_dra_driver.Prepare.Served.{
  prepare_fresh-Leaves, unprepare_known-Leaves, prepare_fresh-AllBacked,
}

module _ (h : Host) (cdi : CdiHandler) (specs : h.State → Text → Option Spec)
    (claim_uid : Text) where
  -- The devices that the checkpoint holds for the claim are those of the claim's CDI spec, and their
  -- ids are defined by it and by the common spec.
  abbrev pub IsServed : PreparedDevices → h.State → Type 0
  IsServed devices s =
      (devices ≡ [])
      ⊎ (HasClaimSpec h cdi specs claim_uid devices s × AllBacked h cdi specs claim_uid s devices)

  -- The checkpoint can be read, and the claim is served.
  abbrev pub Served : h.State → Type 0
  Served s =
      (claims : PreparedClaims) × (h.get_checkpoint s ≡ ok claims)
      × IsServed (prepared_for claims claim_uid) s

  IsServed-later :
      (devices : PreparedDevices) (s s' : h.State)
      → LeavesSpecs h cdi specs claim_uid s s'
      → IsServed devices s
      → IsServed devices s'
  IsServed-later devices s s' l (inl e) = inl e
  IsServed-later devices s s' l (inr (c, b)) = inr (
    HasClaimSpec-later h cdi specs claim_uid devices s s' l c,
    AllBacked-later h cdi specs claim_uid s s' devices l.common_spec b,
  )

prepared_for-SameOthers :
    (claim_uid other : Text) (claims after : PreparedClaims)
    → SameOthers claim_uid claims after
    → text_eq claim_uid other ≡ false
    → prepared_for after other ≡ prepared_for claims other
unfolding prepared_for
prepared_for-SameOthers claim_uid other claims after same n = rw (same other n) refl

module _ (h : Host) (k : KeepsCheckpoint h) (specs : h.State → Text → Option Spec)
    (c : KeepsSpecs h specs) (p : Plugin) where
  module _ (claim_uid : Text) (u : IsClaimUid claim_uid) where
    prepare_unless-LeavesSpecs :
        (claim : Claim) (claims : PreparedClaims) (devices : PreparedDevices) (s : h.State)
        → IsClaimUid claim.uid
        → text_eq claim.uid claim_uid ≡ false
        → LeavesSpecs h p.cdi specs claim_uid s (prepare_unless h p claim claims devices s).1
    unfolding prepare_unless
    prepare_unless-LeavesSpecs claim claims [] s v n =
        prepare_fresh-Leaves h specs c p claim_uid claim claims u v n s
    prepare_unless-LeavesSpecs claim claims (d ∷ devices) s v n =
        same-LeavesSpecs h p.cdi specs claim_uid s s refl

    -- A `Prepare` of another claim.
    prepare_other-Served :
        (claim : Claim) (s : h.State)
        → IsClaimUid claim.uid
        → text_eq claim.uid claim_uid ≡ false
        → Served h p.cdi specs claim_uid s
        → Served h p.cdi specs claim_uid (prepare h p claim s).1
    prepare_other-Served claim s v n (claims, read, served) =
        let left : LeavesSpecs h p.cdi specs claim_uid s (prepare h p claim s).1 =
          rw (prepare_reads h p claim claims s read)
            (prepare_unless-LeavesSpecs claim claims (prepared_for claims claim.uid) s v n) in
        let later = IsServed-later h p.cdi specs claim_uid _ s _ left served in
        elim (Result-cases (prepare h p claim s).0) [
          | inl (ds, r) ↦
              let (after, t, q, same) = prepare_success h k p claim claims s ds read r in
              (after, t, rw (prepared_for-SameOthers claim.uid claim_uid claims after same n) later)
          | inr (x, r) ↦ (claims, prepare_failure h k p claim s x r ∙ read, later)
        ]

    -- An `Unprepare` of another claim.
    unprepare_other-Served :
        (other : Text) (s : h.State)
        → IsClaimUid other
        → text_eq other claim_uid ≡ false
        → Served h p.cdi specs claim_uid s
        → Served h p.cdi specs claim_uid (unprepare h p other s).1
    unprepare_other-Served other s v n (claims, read, served) =
        let left : LeavesSpecs h p.cdi specs claim_uid s (unprepare h p other s).1 =
          rw (unprepare_reads h p other claims s read) (
            unprepare_known-Leaves h specs c p claim_uid other claims (prepared_for claims other) u
              v n s) in
        let later = IsServed-later h p.cdi specs claim_uid _ s _ left served in
        elim (Result-cases (unprepare h p other s).0) [
          | inl (done, r) ↦
              let (after, t, q, same) = unprepare_success h k p other claims s read r in
              (after, t, rw (prepared_for-SameOthers other claim_uid claims after same n) later)
          | inr (x, r) ↦ (claims, unprepare_failure h k p other s x r ∙ read, later)
        ]

  prepare_unless_own-Served :
      (claim : Claim) (claims : PreparedClaims) (devices : PreparedDevices) (s : h.State)
      → IsClaimUid claim.uid
      → h.get_checkpoint s ≡ ok claims
      → prepared_for claims claim.uid ≡ devices
      → IsServed h p.cdi specs claim.uid devices s
      → Served h p.cdi specs claim.uid (prepare_unless h p claim claims devices s).1
  unfolding prepare_unless
  prepare_unless_own-Served claim claims [] s v read f served =
      elim (Result-cases (prepare_fresh h p claim claims s).0) [
        | inl (ds, r) ↦
            let (devices, made, q, t) = prepare_fresh-ok h k p claim claims s ds r in
            (
              insert claim.uid devices claims,
              t,
              rw (prepared_for-insert claim.uid devices claims)
                  (inr (prepare_fresh-AllBacked h specs c p claim claims s devices ds v made r)),
            )
        | inr (x, r) ↦ (claims, prepare_fresh-FailsQuiet h k p claim claims s x r ∙ read, inl f)
      ]
  prepare_unless_own-Served claim claims (d ∷ devices) s v read f served =
      (claims, read, rw f served)

  prepare_own-Served :
      (claim : Claim) (s : h.State)
      → IsClaimUid claim.uid
      → Served h p.cdi specs claim.uid s
      → Served h p.cdi specs claim.uid (prepare h p claim s).1
  prepare_own-Served claim s v (claims, read, served) =
      rw (prepare_reads h p claim claims s read)
        (prepare_unless_own-Served claim claims _ s v read refl served)

  unprepare_own-Served :
      (claim_uid : Text) (s : h.State)
      → (unprepare h p claim_uid s).0 ≡ ok tt
      → Served h p.cdi specs claim_uid s
      → Served h p.cdi specs claim_uid (unprepare h p claim_uid s).1
  unprepare_own-Served claim_uid s r (claims, read, served) =
      let (after, t, q, same) = unprepare_success h k p claim_uid claims s read r in
      (after, t, inl q)

  pub prepare-Served :
      (claim : Claim) (claim_uid : Text) (s : h.State)
      → IsClaimUid claim.uid
      → IsClaimUid claim_uid
      → Served h p.cdi specs claim_uid s
      → Served h p.cdi specs claim_uid (prepare h p claim s).1
  prepare-Served claim claim_uid s v u served = elim (Bool-cases (text_eq claim.uid claim_uid)) [
    | inl e ↦
        let same = text_eq_sound claim.uid claim_uid e in
        subst (λ t. Served h p.cdi specs t (prepare h p claim s).1) same
          (prepare_own-Served claim s v (subst (λ t. Served h p.cdi specs t s) (sym same) served))
    | inr n ↦ prepare_other-Served claim_uid u claim s v n served
  ]

  pub unprepare-Served :
      (other claim_uid : Text) (s : h.State)
      → IsClaimUid other
      → IsClaimUid claim_uid
      → (text_eq other claim_uid ≡ true → (unprepare h p other s).0 ≡ ok tt)
      → Served h p.cdi specs claim_uid s
      → Served h p.cdi specs claim_uid (unprepare h p other s).1
  unprepare-Served other claim_uid s v u done served = elim (Bool-cases (text_eq other claim_uid)) [
    | inl e ↦
        let same = text_eq_sound other claim_uid e in
        subst (λ t. Served h p.cdi specs t (unprepare h p other s).1) same
          (unprepare_own-Served other s (done e)
            (subst (λ t. Served h p.cdi specs t s) (sym same) served))
    | inr n ↦ unprepare_other-Served claim_uid u other s v n served
  ]
