-- ===== src/Prepare/Refinement.antt =====
-- `Prepare` and `Unprepare`, over any sequence of calls, as changes of a function from claims to
-- the devices that the kubelet was given for them.
use mathlib.Core.Path.{fun_ext}
use rbln_k8s_dra_driver.Base.{
  ◌≡◌, refl, ap, ◌∙◌, sym, List, [], ◌∷◌, Result, ok, err, if◌then◌else◌, inl, inr, Bool-cases,
  Result-cases,
}
use rbln_k8s_dra_driver.Go.Text.{Text, text_eq, text_eq_sound}
use rbln_k8s_dra_driver.Go.Errors.{Error}
use rbln_k8s_dra_driver.Go.Maps.{text_key}
use rbln_k8s_dra_driver.Claim.{Claim, DraDevice, PreparedClaims, get_devices}
use rbln_k8s_dra_driver.Host.{Host}
use rbln_k8s_dra_driver.Host.Laws.{KeepsCheckpoint}
use rbln_k8s_dra_driver.Prepare.Devices.{Plugin}
use rbln_k8s_dra_driver.Prepare.Claims.{prepare, unprepare, prepared_for}
use rbln_k8s_dra_driver.Prepare.Laws.{
  SameOthers, prepare_success, prepare_failure, unprepare_success, unprepare_failure,
}

-- A call with the plugin as it stands then: scans change its map between calls.
pub data Call : Type 0 where
  prepare_call : Plugin → Claim → Call
  unprepare_call : Plugin → Text → Call

-- What the caller of a call sees.
pub data Event : Type 0 where
  prepared : Text → List DraDevice → Event
  unprepared : Text → Event
  refused : Error → Event

abbrev pub prepare_event : Text → Result Error (List DraDevice) → Event
prepare_event claim_uid (ok devices) = prepared claim_uid devices
prepare_event claim_uid (err e) = refused e

abbrev pub unprepare_event : Text → Result Error (Unit {0}) → Event
unprepare_event claim_uid (ok u) = unprepared claim_uid
unprepare_event claim_uid (err e) = refused e

-- The devices of each claim, none if it is not prepared.
abbrev pub View : Type 0
View = Text → List DraDevice

unfoldable pub view : PreparedClaims → View
view claims claim_uid = get_devices (prepared_for claims claim_uid)

abbrev pub update : View → Text → List DraDevice → View
update v claim_uid devices other = if text_eq claim_uid other then devices else v other

abbrev pub apply : Event → View → View
apply (prepared claim_uid devices) v = update v claim_uid devices
apply (unprepared claim_uid) v = update v claim_uid []
apply (refused e) v = v

abbrev pub replay : List Event → View → View
replay [] v = v
replay (event ∷ events) v = replay events (apply event v)

view-SameOthers :
    (claim_uid : Text) (claims after : PreparedClaims) (v : View) (devices : List DraDevice)
    → SameOthers claim_uid claims after
    → view claims ≡ v
    → view after claim_uid ≡ devices
    → view after ≡ update v claim_uid devices
unfolding view prepared_for
view-SameOthers claim_uid claims after v devices same shown here = fun_ext λ other.
    elim (Bool-cases (text_eq claim_uid other)) [
      | inl e ↦ rw (e, sym (text_eq_sound claim_uid other e)) here
      | inr e ↦ rw (e, same other e) (ap (λ w. w other) shown)
    ]

module _ (h : Host) where
  unfoldable pub call : Call → h.State → Event × h.State
  call (prepare_call p claim) s =
      let (r, s') = prepare h p claim s in (prepare_event claim.uid r, s')
  call (unprepare_call p claim_uid) s =
      let (r, s') = unprepare h p claim_uid s in (unprepare_event claim_uid r, s')

  unfoldable pub run : List Call → h.State → List Event × h.State
  run [] s = ([], s)
  run (c ∷ calls) s =
      let (event, s') = call c s in let (events, s'') = run calls s' in (event ∷ events, s'')

  -- The checkpoint can be read in this state, and shows this view.
  abbrev pub Shows : h.State → View → Type 0
  Shows s v = (claims : PreparedClaims) × (h.get_checkpoint s ≡ ok claims) × (view claims ≡ v)

module _ (h : Host) (k : KeepsCheckpoint h) where
  call_refines :
      (c : Call) (s : h.State) (v : View)
      → Shows h s v
      → Shows h (call h c s).1 (apply (call h c s).0 v)
  unfolding call view get_devices
  call_refines (prepare_call p claim) s v (claims, read, shown) =
      elim (Result-cases (prepare h p claim s).0) [
        | inl (ds, r) ↦
            let (after, t, q, same) = prepare_success h k p claim claims s ds read r in
            (after, t, rw r (view-SameOthers claim.uid claims after v ds same shown q))
        | inr (x, r) ↦ (claims, prepare_failure h k p claim s x r ∙ read, rw r shown)
      ]
  call_refines (unprepare_call p claim_uid) s v (claims, read, shown) =
      elim (Result-cases (unprepare h p claim_uid s).0) [
        | inl (u, r) ↦
            let (after, t, q, same) = unprepare_success h k p claim_uid claims s read r in
            (after, t, rw r (view-SameOthers claim_uid claims after v [] same shown (rw q refl)))
        | inr (x, r) ↦ (claims, unprepare_failure h k p claim_uid s x r ∙ read, rw r shown)
      ]

  -- Where the checkpoint is kept as documented and can be read, it can be read after any sequence of
  -- calls of `Prepare` and `Unprepare`, and the devices it then holds for each claim are those that
  -- follow from the answers alone: a successful `Prepare` sets the claim's devices to the ones
  -- returned, a successful `Unprepare` to none, and a failed call changes nothing.
  pub run_refines :
      (calls : List Call) (s : h.State) (v : View)
      → Shows h s v
      → Shows h (run h calls s).1 (replay (run h calls s).0 v)
  unfolding run
  run_refines [] s v shown = shown
  run_refines (c ∷ calls) s v shown =
      run_refines calls (call h c s).1 (apply (call h c s).0 v) (call_refines c s v shown)
