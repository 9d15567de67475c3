-- ===== src/Webhook/Laws.antt =====
-- Which requests the webhook of cmd/webhook admits.
use rbln_k8s_dra_driver.Base.{
  ◌≡◌, ◌↔◌, ◌⊎◌, inl, inr, refl, true, ok, err, Result, Option, none, some, arith, Result-cases,
  Option-cases,
}
use rbln_k8s_dra_driver.Go.Text.{Text, codes, text_eq_iff, text_eq_sound, text_eq_refl}
use rbln_k8s_dra_driver.Go.Errors.{Error}
use rbln_k8s_dra_driver.Webhook.{
  Resource, Version, ObjectType, claim_version, claim_template_version, same_resource, Request,
  Scheme, extract, claim_object, claim_template_object, extract_resource_claim,
  extract_resource_claim_template, is_some_version, allow_if, admit, body, serve,
  read_admission_review, answer, encoded, GroupVersionKind, same_kind, admission_review_kind,
  Review, checked_review,
}

-- The object in the request is a claim or a template of the version that its resource names, and it
-- can be decoded and converted.
abbrev pub IsReadable : (scheme : Scheme) → Request → Type 0
IsReadable scheme r =
    (type : ObjectType) × (object : scheme.Object) × ((claim_object (claim_version r.resource)
        ≡ some type)
      ⊎ (claim_template_object (claim_template_version r.resource) ≡ some type))
    × (scheme.decode type r.raw ≡ ok object)
    × (scheme.convert object ≡ ok tt)

module _ (scheme : Scheme) where
  extract-ok :
      (o : Option ObjectType) (raw : Text)
      → extract scheme o raw ≡ ok tt
      → (type : ObjectType) × (object : scheme.Object) × (o ≡ some type)
        × (scheme.decode type raw ≡ ok object)
        × (scheme.convert object ≡ ok tt)
  unfolding extract
  extract-ok none raw h = absurd (ground arith)
  extract-ok (some type) raw h = elim (Result-cases (scheme.decode type raw)) [
    | inl (object, r) ↦ (type, object, refl, r, ground arith)
    | inr (e, r) ↦ absurd (ground arith)
  ]

-- The answers by version.
claims-apart :
    (r : Resource) (v : Version) → claim_template_version r ≡ some v → claim_version r ≡ none
unfolding claim_version claim_template_version same_resource
claims-apart r v h = ground (
  arith,
  text_eq_iff r.resource (codes "resourceclaims"),
  text_eq_iff r.resource (codes "resourceclaimtemplates"),
)

module _ (scheme : Scheme) where
  admit_allowed_sound : (r : Request) → (admit scheme r).allowed ≡ true → IsReadable scheme r
  unfolding admit allow_if is_some_version claim_object claim_template_object extract_resource_claim
      extract_resource_claim_template
  admit_allowed_sound r h = elim (Option-cases (claim_version r.resource)) [
    | inr (v, c) ↦
        let (type, object, o, d, k) =
          extract-ok scheme (claim_object (claim_version r.resource)) r.raw (ground arith) in
        (type, object, inl o, d, k)
    | inl c ↦ elim (Option-cases (claim_template_version r.resource)) [
      | inr (v, u) ↦
          let (type, object, o, d, k) =
            extract-ok scheme (claim_template_object (claim_template_version r.resource)) r.raw
              (ground arith) in
          (type, object, inr o, d, k)
      | inl u ↦ absurd (ground arith)
    ]
  ]

  admit_allowed_complete : (r : Request) → IsReadable scheme r → (admit scheme r).allowed ≡ true
  unfolding admit allow_if is_some_version claim_object claim_template_object extract_resource_claim
      extract_resource_claim_template extract
  admit_allowed_complete r (type, object, inl o, d, k) = ground arith
  admit_allowed_complete r (type, object, inr o, d, k) =
      elim (Option-cases (claim_template_version r.resource)) [
        | inr (v, u) ↦ ground (arith, claims-apart r.resource v u)
        | inl u ↦ absurd (ground arith)
      ]

  -- The webhook admits a request exactly if its resource is one of the claims and claim templates
  -- that it knows, and the object in it can be decoded as the type of that resource and converted.
  pub admit_lem : (r : Request) → ((admit scheme r).allowed ≡ true) ↔ IsReadable scheme r
  admit_lem r = (admit_allowed_sound r, admit_allowed_complete r)

-- The body decodes into a review of admission.k8s.io/v1, which has this kind and this request.
abbrev pub Holds : Scheme → Text → GroupVersionKind → Request → Type 0
Holds scheme data_read kind r =
    (review : Review) × (scheme.decode_review data_read ≡ ok review)
    × (review.reported ≡ admission_review_kind)
    × (review.is_v1 ≡ true)
    × (review.kind ≡ kind)
    × (review.request ≡ some r)

same_kind_sound : (a b : GroupVersionKind) → same_kind a b ≡ true → a ≡ b
unfolding same_kind
same_kind_sound a b h = ground (
  arith,
  text_eq_sound a.group b.group,
  text_eq_sound a.version b.version,
  text_eq_sound a.kind b.kind,
)

same_kind_refl : (a : GroupVersionKind) → same_kind a a ≡ true
unfolding same_kind
same_kind_refl a = rw (text_eq_refl a.group, text_eq_refl a.version, text_eq_refl a.kind) refl

module _ (scheme : Scheme) where
  read_admission_review-Holds :
      (data_read : Text) (kind : GroupVersionKind) (r : Request)
      → read_admission_review scheme data_read ≡ ok (kind, r)
      → Holds scheme data_read kind r
  unfolding read_admission_review checked_review
  read_admission_review-Holds data_read kind r h =
      elim (Result-cases (scheme.decode_review data_read)) [
        | inr (e, q) ↦ absurd (ground arith)
        | inl (review, q) ↦ elim (Option-cases review.request) [
          | inl n ↦ absurd (ground arith)
          | inr (found, f) ↦ (
            review,
            q,
            same_kind_sound review.reported admission_review_kind (ground arith),
            ground arith,
            ground arith,
            ground arith,
          )
        ]
      ]

  read_admission_review_lem :
      (data_read : Text) (kind : GroupVersionKind) (r : Request)
      → Holds scheme data_read kind r
      → read_admission_review scheme data_read ≡ ok (kind, r)
  unfolding read_admission_review checked_review
  read_admission_review_lem data_read kind r (review, q, reported, typed, same, found) =
      rw (q, reported, same_kind_refl admission_review_kind, typed, found, same) refl

  -- What a body is sent for.
  abbrev pub IsAnswered : Result Error Text → Text → Text → Type 0
  IsAnswered read content_type bytes =
      (data_read : Text) × (kind : GroupVersionKind) × (r : Request) × (read ≡ ok data_read)
      × (content_type ≡ codes "application/json")
      × Holds scheme data_read kind r
      × (scheme.encode kind (record (admit scheme r) { uid = r.uid }) ≡ ok bytes)

  serve-IsAnswered :
      (read : Result Error Text) (content_type bytes : Text)
      → serve scheme read content_type ≡ body bytes
      → IsAnswered read content_type bytes
  unfolding serve answer encoded
  serve-IsAnswered (err e) content_type bytes h = absurd (ground arith)
  serve-IsAnswered (ok data_read) content_type bytes h =
      elim (Result-cases (read_admission_review scheme data_read)) [
        | inr (e, q) ↦ absurd (ground arith)
        | inl ((kind, r), q) ↦
            elim (Result-cases (scheme.encode kind (record (admit scheme r) { uid = r.uid }))) [
              | inr (e, w) ↦ absurd (ground arith)
              | inl (b, w) ↦ (
                data_read,
                kind,
                r,
                refl,
                text_eq_sound content_type (codes "application/json") (ground arith),
                read_admission_review-Holds data_read kind r q,
                ground arith,
              )
            ]
      ]

  IsAnswered-serve :
      (read : Result Error Text) (content_type bytes : Text)
      → IsAnswered read content_type bytes
      → serve scheme read content_type ≡ body bytes
  unfolding serve answer encoded
  IsAnswered-serve read content_type bytes (data_read, kind, r, a, json, holds, w) =
      rw
        (
          a,
          json,
          text_eq_refl (codes "application/json"),
          read_admission_review_lem data_read kind r holds,
          w,
        )
        refl

  -- The webhook sends these bytes as a body exactly if the body of the request could be read, is
  -- announced as JSON, and decodes into a v1 AdmissionReview with a request, and the bytes encode a
  -- review of the same kind with the decision on that request under the request's own UID. In all
  -- other cases it sends an HTTP error.
  pub serve_lem :
      (read : Result Error Text) (content_type bytes : Text)
      → (serve scheme read content_type ≡ body bytes) ↔ IsAnswered read content_type bytes
  serve_lem read content_type bytes =
      (serve-IsAnswered read content_type bytes, IsAnswered-serve read content_type bytes)
