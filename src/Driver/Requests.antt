-- ===== src/Driver/Requests.antt =====
-- The answers to a request of the kubelet.
use rbln_k8s_dra_driver.Base.{
  ◌≡◌, refl, ◌∙◌, Bool, true, false, ◌||◌, List, [], ◌∷◌, Result, ok, Option, none, some, arith,
  inl, inr, Result-cases,
}
use rbln_k8s_dra_driver.Go.Text.{Text, contains}
use rbln_k8s_dra_driver.Go.Errors.{Error}
use rbln_k8s_dra_driver.Go.Maps.{lookup, insert, text_key, lookup-insert}
use rbln_k8s_dra_driver.Claim.{Claim, DraDevice, PreparedClaims}
use rbln_k8s_dra_driver.Host.{Host}
use rbln_k8s_dra_driver.Host.Laws.{KeepsCheckpoint}
use rbln_k8s_dra_driver.Prepare.Devices.{Plugin}
use rbln_k8s_dra_driver.Prepare.Claims.{prepare}
use rbln_k8s_dra_driver.Prepare.Laws.{SameOthers, prepare_success, prepare_failure}
use rbln_k8s_dra_driver.Driver.{
  PrepareResults, prepare_resource_claim, prepare_claims_onto, prepare_resource_claims,
}

abbrev pub uids : List Claim → List Text
uids [] = []
uids (claim ∷ claims) = claim.uid ∷ uids claims

abbrev pub is_answer : Option (Result Error (List DraDevice)) → Bool
is_answer none = false
is_answer (some r) = true

module _ (h : Host) (p : Plugin) where
  prepare_claims_onto_answers :
      (m : PrepareResults) (claims : List Claim) (s : h.State) (claim_uid : Text)
      → is_answer (lookup claim_uid (prepare_claims_onto h p m claims s).0)
        ≡ (is_answer (lookup claim_uid m) || contains (uids claims) claim_uid)
  unfolding prepare_claims_onto contains
  prepare_claims_onto_answers m [] s claim_uid = ground arith
  prepare_claims_onto_answers m (claim ∷ claims) s claim_uid =
      let (r, s') = prepare_resource_claim h p claim s in
      ground (
        arith,
        prepare_claims_onto_answers (insert claim.uid r m) claims s' claim_uid,
        lookup-insert claim.uid claim_uid r m,
      )

  -- A request is answered for exactly the claims that it names, whether preparing them succeeds or
  -- not.
  pub prepare_resource_claims_answers :
      (claims : List Claim) (s : h.State) (claim_uid : Text)
      → is_answer (lookup claim_uid (prepare_resource_claims h p claims s).0)
        ≡ contains (uids claims) claim_uid
  unfolding prepare_resource_claims lookup
  prepare_resource_claims_answers claims s claim_uid =
      prepare_claims_onto_answers [] claims s claim_uid

module _ (h : Host) (k : KeepsCheckpoint h) (p : Plugin) where
  prepare_resource_claim-SameOthers :
      (claim : Claim) (stored : PreparedClaims) (s : h.State)
      → h.get_checkpoint s ≡ ok stored
      → (after : PreparedClaims) × (h.get_checkpoint (prepare_resource_claim h p claim s).1
          ≡ ok after)
        × SameOthers claim.uid stored after
  unfolding prepare_resource_claim
  prepare_resource_claim-SameOthers claim stored s c = elim (Result-cases (prepare h p claim s).0) [
    | inl (ds, r) ↦
        let (after, t, q, same) = prepare_success h k p claim stored s ds c r in (after, t, same)
    | inr (x, r) ↦ (stored, prepare_failure h k p claim s x r ∙ c, λ other n. refl)
  ]

  prepare_claims_onto_keeps :
      (m : PrepareResults) (claims : List Claim) (stored : PreparedClaims) (s : h.State)
      (other : Text)
      → h.get_checkpoint s ≡ ok stored
      → contains (uids claims) other ≡ false
      → (after : PreparedClaims) × (h.get_checkpoint (prepare_claims_onto h p m claims s).1
          ≡ ok after)
        × (lookup other after ≡ lookup other stored)
  unfolding prepare_claims_onto contains
  prepare_claims_onto_keeps m [] stored s other c n = (stored, c, refl)
  prepare_claims_onto_keeps m (claim ∷ claims) stored s other c n =
      let (r, s') = prepare_resource_claim h p claim s in
      let (between, t, same) = prepare_resource_claim-SameOthers claim stored s c in
      let (after, u, rest) =
        prepare_claims_onto_keeps (insert claim.uid r m) claims between s' other t (ground arith) in
      (after, u, rest ∙ same other (ground arith))

  -- Where the checkpoint is kept as documented and can be read, a request leaves the prepared
  -- devices of every claim that it does not name as they were, whichever of its claims fail.
  pub prepare_resource_claims_keeps :
      (claims : List Claim) (stored : PreparedClaims) (s : h.State) (other : Text)
      → h.get_checkpoint s ≡ ok stored
      → contains (uids claims) other ≡ false
      → (after : PreparedClaims) × (h.get_checkpoint (prepare_resource_claims h p claims s).1
          ≡ ok after)
        × (lookup other after ≡ lookup other stored)
  unfolding prepare_resource_claims
  prepare_resource_claims_keeps claims stored s other c n =
      prepare_claims_onto_keeps [] claims stored s other c n
