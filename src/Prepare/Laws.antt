-- ===== src/Prepare/Laws.antt =====
-- What `Prepare` and `Unprepare` of cmd/npu-kubelet-plugin/state.go do to the checkpoint.
use rbln_k8s_dra_driver.Base.{
  ◌≡◌, refl, sym, ap, ◌∙◌, false, List, [], ◌∷◌, ok, err, arith, inl, inr, Result-cases,
}
use rbln_k8s_dra_driver.Go.Text.{Text, text_eq, text_eq_refl}
use rbln_k8s_dra_driver.Go.Errors.{Error}
use rbln_k8s_dra_driver.Go.Maps.{
  lookup, insert, delete, text_key, lookup-insert, lookup-insert_self, lookup-delete,
}
use rbln_k8s_dra_driver.Claim.{Claim, DraDevice, PreparedDevices, PreparedClaims, get_devices}
use rbln_k8s_dra_driver.Host.{Host, ◌>>=◌}
use rbln_k8s_dra_driver.Host.Laws.{KeepsCheckpoint, FailsQuiet}
use rbln_k8s_dra_driver.Prepare.Devices.{Plugin}
use rbln_k8s_dra_driver.Prepare.Claims.{
  prepare_unless, prepare, prepared_for, unprepare_known, unprepare,
}
use rbln_k8s_dra_driver.Prepare.Steps.{
  prepare_fresh-FailsQuiet, prepare_fresh-ok, unprepare_known-ok, unprepare_known-FailsQuiet,
}

-- The operations on a checkpoint that can be read.
module _ (h : Host) (p : Plugin) where
  pub prepare_reads :
      (claim : Claim) (claims : PreparedClaims) (s : h.State)
      → h.get_checkpoint s ≡ ok claims
      → prepare h p claim s ≡ prepare_unless h p claim claims (prepared_for claims claim.uid) s
  unfolding prepare
  prepare_reads claim claims s c = rw (c, ◌>>=◌) refl

  pub unprepare_reads :
      (claim_uid : Text) (claims : PreparedClaims) (s : h.State)
      → h.get_checkpoint s ≡ ok claims
      → unprepare h p claim_uid s
        ≡ unprepare_known h p claim_uid claims (prepared_for claims claim_uid) s
  unfolding unprepare
  unprepare_reads claim_uid claims s c = rw (c, ◌>>=◌) refl

  prepare_unless-known :
      (claim : Claim) (claims : PreparedClaims) (devices : PreparedDevices) (d : DraDevice)
      (ds : List DraDevice) (s : h.State)
      → get_devices devices ≡ d ∷ ds
      → prepare_unless h p claim claims devices s ≡ (ok (d ∷ ds), s)
  unfolding prepare_unless get_devices
  prepare_unless-known claim claims [] d ds s e = absurd (cc)
  prepare_unless-known claim claims (x ∷ devices) d ds s e = rw e refl

  prepare-known :
      (claim : Claim) (claims : PreparedClaims) (d : DraDevice) (ds : List DraDevice) (s : h.State)
      → h.get_checkpoint s ≡ ok claims
      → get_devices (prepared_for claims claim.uid) ≡ d ∷ ds
      → prepare h p claim s ≡ (ok (d ∷ ds), s)
  prepare-known claim claims d ds s c e =
      prepare_reads claim claims s c ∙ prepare_unless-known claim claims _ d ds s e

pub prepared_for-insert :
    (claim_uid : Text) (devices : PreparedDevices) (claims : PreparedClaims)
    → prepared_for (insert claim_uid devices claims) claim_uid ≡ devices
unfolding prepared_for
prepared_for-insert claim_uid devices claims = rw (lookup-insert_self claim_uid devices claims) refl

prepared_for-delete :
    (claim_uid : Text) (claims : PreparedClaims)
    → prepared_for (delete claim_uid claims) claim_uid ≡ []
unfolding prepared_for
prepared_for-delete claim_uid claims =
    rw (lookup-delete claim_uid claim_uid claims, text_eq_refl claim_uid) refl

-- What a checkpoint says of every other claim.
abbrev pub SameOthers : Text → PreparedClaims → PreparedClaims → Type 0
SameOthers claim_uid before after =
    (other : Text) → text_eq claim_uid other ≡ false → lookup other after ≡ lookup other before

insert-SameOthers :
    (claim_uid : Text) (devices : PreparedDevices) (claims : PreparedClaims)
    → SameOthers claim_uid claims (insert claim_uid devices claims)
insert-SameOthers claim_uid devices claims other e =
    rw (lookup-insert claim_uid other devices claims, e) refl

delete-SameOthers :
    (claim_uid : Text) (claims : PreparedClaims)
    → SameOthers claim_uid claims (delete claim_uid claims)
delete-SameOthers claim_uid claims other e = rw (lookup-delete claim_uid other claims, e) refl

module _ (h : Host) (k : KeepsCheckpoint h) (p : Plugin) where
  prepare_unless-FailsQuiet :
      (claim : Claim) (claims : PreparedClaims) (devices : PreparedDevices)
      → FailsQuiet h (prepare_unless h p claim claims devices)
  unfolding prepare_unless
  prepare_unless-FailsQuiet claim claims [] s x e =
      prepare_fresh-FailsQuiet h k p claim claims s x e
  prepare_unless-FailsQuiet claim claims (d ∷ devices) s x e = refl

  prepare_unless-ok :
      (claim : Claim) (claims : PreparedClaims) (devices : PreparedDevices) (s : h.State)
      (ds : List DraDevice)
      → h.get_checkpoint s ≡ ok claims
      → prepared_for claims claim.uid ≡ devices
      → (prepare_unless h p claim claims devices s).0 ≡ ok ds
      → (after : PreparedClaims) × (h.get_checkpoint (prepare_unless h p claim claims devices s).1
          ≡ ok after)
        × (get_devices (prepared_for after claim.uid) ≡ ds)
        × SameOthers claim.uid claims after
  unfolding prepare_unless
  prepare_unless-ok claim claims [] s ds c f e =
      let (devices, r, q, t) = prepare_fresh-ok h k p claim claims s ds e in
      (
        insert claim.uid devices claims,
        t,
        rw (prepared_for-insert claim.uid devices claims) (sym q),
        insert-SameOthers claim.uid devices claims,
      )
  prepare_unless-ok claim claims (d ∷ devices) s ds c f e =
      (claims, c, rw f (ground arith), λ other n. refl)

  -- Where the checkpoint is kept as documented, `Prepare` that fails leaves the checkpoint as it
  -- was, whichever of its steps failed.
  pub prepare_failure :
      (claim : Claim) (s : h.State) (x : Error)
      → (prepare h p claim s).0 ≡ err x
      → h.get_checkpoint (prepare h p claim s).1 ≡ h.get_checkpoint s
  unfolding prepare
  prepare_failure claim s x e = elim (Result-cases (h.get_checkpoint s)) [
    | inl (claims, c) ↦ ground (
      arith,
      prepare_reads h p claim claims s c,
      prepare_unless-FailsQuiet claim claims (prepared_for claims claim.uid) s x,
    )
    | inr (y, c) ↦ ground arith
  ]

  -- Where the checkpoint is kept as documented and holds `claims`, `Prepare` that succeeds leaves a
  -- checkpoint from which it answers: the stored devices of the claim are the ones returned, and
  -- the entries of all other claims are as before.
  pub prepare_success :
      (claim : Claim) (claims : PreparedClaims) (s : h.State) (ds : List DraDevice)
      → h.get_checkpoint s ≡ ok claims
      → (prepare h p claim s).0 ≡ ok ds
      → (after : PreparedClaims) × (h.get_checkpoint (prepare h p claim s).1 ≡ ok after)
        × (get_devices (prepared_for after claim.uid) ≡ ds)
        × SameOthers claim.uid claims after
  prepare_success claim claims s ds c e = rw (prepare_reads h p claim claims s c) (
      prepare_unless-ok claim claims _ s ds c refl
        ((sym (ap (λ r. r.0) (prepare_reads h p claim claims s c))) ∙ e))

  -- Where the checkpoint is kept as documented and can be read, a second `Prepare` of a claim that
  -- was prepared with at least one device returns the same devices and changes nothing on the node.
  pub prepare-prepare :
      (claim : Claim) (claims : PreparedClaims) (s : h.State) (d : DraDevice) (ds : List DraDevice)
      → h.get_checkpoint s ≡ ok claims
      → (prepare h p claim s).0 ≡ ok (d ∷ ds)
      → let s' = (prepare h p claim s).1 in prepare h p claim s' ≡ (ok (d ∷ ds), s')
  prepare-prepare claim claims s d ds c e =
      let (after, t, q, same) = prepare_success claim claims s (d ∷ ds) c e in
      prepare-known h p claim after d ds _ t q

  -- Where the checkpoint is kept as documented, `Unprepare` that fails leaves the checkpoint as it
  -- was, whichever of its steps failed.
  pub unprepare_failure :
      (claim_uid : Text) (s : h.State) (x : Error)
      → (unprepare h p claim_uid s).0 ≡ err x
      → h.get_checkpoint (unprepare h p claim_uid s).1 ≡ h.get_checkpoint s
  unfolding unprepare
  unprepare_failure claim_uid s x e = elim (Result-cases (h.get_checkpoint s)) [
    | inl (claims, c) ↦ ground (
      arith,
      unprepare_reads h p claim_uid claims s c,
      unprepare_known-FailsQuiet h k p claim_uid claims (prepared_for claims claim_uid) s x,
    )
    | inr (y, c) ↦ ground arith
  ]

  -- Where the checkpoint is kept as documented and holds `claims`, after an `Unprepare` that
  -- succeeds no device is prepared for the claim, and the entries of all other claims are as before.
  pub unprepare_success :
      (claim_uid : Text) (claims : PreparedClaims) (s : h.State)
      → h.get_checkpoint s ≡ ok claims
      → (unprepare h p claim_uid s).0 ≡ ok tt
      → (after : PreparedClaims) × (h.get_checkpoint (unprepare h p claim_uid s).1 ≡ ok after)
        × (prepared_for after claim_uid ≡ [])
        × SameOthers claim_uid claims after
  unprepare_success claim_uid claims s c e =
      let read = unprepare_reads h p claim_uid claims s c in
      rw read
        (elim (unprepare_known-ok h k p claim_uid claims _ s c (sym (ap (λ r. r.0) read) ∙ e)) [
          | inl (n, t) ↦ (
            delete claim_uid claims,
            t,
            prepared_for-delete claim_uid claims,
            delete-SameOthers claim_uid claims,
          )
          | inr (n, t) ↦ (claims, ap (λ r. h.get_checkpoint r.1) t ∙ c, n, λ other q. refl)
        ])
