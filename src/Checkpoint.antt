-- ===== src/Checkpoint.antt =====
-- cmd/npu-kubelet-plugin/checkpoint.go: the encoding of the checkpoint with its checksum. JSON and
-- the checksum of the kubelet's package are parameters.
use rbln_k8s_dra_driver.Base.{
  ℕ, ◌≡◌, refl, [], Result, ok, err, Option, some, arith, inl, inr, Result-cases,
}
use rbln_k8s_dra_driver.Go.Errors.{Error}
use rbln_k8s_dra_driver.Claim.{PreparedClaims}

-- `Checkpoint`, where `v1` holds the claims of `CheckpointV1`.
pub record Checkpoint : Type 0 where
  pub checksum : ℕ
  pub v1 : Option PreparedClaims

abbrev pub with_checksum : Checkpoint → ℕ → Checkpoint
with_checksum cp c = record cp { checksum = c }

-- `newCheckpoint`
abbrev pub new_checkpoint : Checkpoint
new_checkpoint = record { checksum = 0; v1 = some [] }

-- encoding/json on checkpoints, where decoding starts from a value that is there, and the package
-- checksum, on the bytes that checkpoints are encoded to.
pub record Codec : Type 1 where
  pub Bytes : Type 0
  pub marshal : Checkpoint → Result Error Bytes
  pub unmarshal : Bytes → Checkpoint → Result Error Checkpoint
  pub new_checksum : Bytes → ℕ
  pub verify : ℕ → Bytes → Result Error (Unit {0})

module _ (codec : Codec) where
  -- The second half of `MarshalCheckpoint`, by the bytes that the checksum is made of.
  unfoldable pub marshal_with :
      Checkpoint → Result Error codec.Bytes → Result Error codec.Bytes × Checkpoint
  marshal_with cp (err e) = (err e, cp)
  marshal_with cp (ok out) =
      let cp' = with_checksum cp (codec.new_checksum out) in (codec.marshal cp', cp')

  -- `MarshalCheckpoint`, which leaves the checksum in the receiver.
  unfoldable pub marshal_checkpoint : Checkpoint → Result Error codec.Bytes × Checkpoint
  unfolding marshal_with
  marshal_checkpoint cp = let cp' = with_checksum cp 0 in marshal_with cp' (codec.marshal cp')

  -- `UnmarshalCheckpoint`, into the receiver.
  unfoldable pub unmarshal_checkpoint : codec.Bytes → Checkpoint → Result Error Checkpoint
  unmarshal_checkpoint content cp = codec.unmarshal content cp

  unfoldable pub verify_against : ℕ → Result Error codec.Bytes → Result Error (Unit {0})
  verify_against ck (err e) = err e
  verify_against ck (ok out) = codec.verify ck out

  -- `VerifyChecksum`, with the receiver as the deferred function leaves it.
  unfoldable pub verify_checksum : Checkpoint → Result Error (Unit {0}) × Checkpoint
  unfolding verify_against
  verify_checksum cp =
      let ck = cp.checksum in
      let cp' = with_checksum cp 0 in (verify_against ck (codec.marshal cp'), with_checksum cp' ck)

-- The documented behaviour of both packages: a checkpoint with claims that was encoded is decoded as
-- it was, into a new one, and a checksum is accepted for the bytes that it was made of.
pub record IsCodec (codec : Codec) : Type 0 where
  pub unmarshal-marshal :
      (checksum : ℕ) (claims : PreparedClaims) (content : codec.Bytes)
      → codec.marshal (record { checksum = checksum; v1 = some claims }) ≡ ok content
      → codec.unmarshal content new_checkpoint
        ≡ ok (record { checksum = checksum; v1 = some claims })
  pub verify-new :
      (content : codec.Bytes) → codec.verify (codec.new_checksum content) content ≡ ok tt

-- Where JSON and the checksum behave as documented, the bytes that a checkpoint with claims is
-- encoded to are decoded, into a new checkpoint, to one with the same claims whose checksum is
-- accepted; and checking it leaves the decoded checkpoint as it was.
pub verify_checksum-marshal_checkpoint :
    (codec : Codec) (c : IsCodec codec) (checksum : ℕ) (claims : PreparedClaims)
    (content : codec.Bytes)
    → (marshal_checkpoint codec (record { checksum = checksum; v1 = some claims })).0 ≡ ok content
    → (cp : Checkpoint) × (unmarshal_checkpoint codec content new_checkpoint ≡ ok cp)
      × (cp.v1 ≡ some claims)
      × (verify_checksum codec cp ≡ (ok tt, cp))
unfolding marshal_checkpoint unmarshal_checkpoint verify_checksum
verify_checksum-marshal_checkpoint codec c checksum claims content h =
    elim (Result-cases (codec.marshal (record { checksum = 0; v1 = some claims }))) [
      | inl (out, e) ↦ (
        record { checksum = codec.new_checksum out; v1 = some claims },
        c.unmarshal-marshal (codec.new_checksum out) claims content (rw e at h),
        refl,
        rw (e, c.verify-new out) refl,
      )
      | inr (x, e) ↦ absurd (ground arith)
    ]
