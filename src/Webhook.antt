-- ===== src/Webhook.antt =====
-- cmd/webhook: the admission decision on claims and claim templates (main.go, resource.go). The
-- decoder and the conversions of the Kubernetes scheme are a parameter.
pub mod Laws
pub mod Mux
pub mod Main
use rbln_k8s_dra_driver.Base.{
  ◌≡◌, refl, Bool, true, false, ◌&&◌, ◌||◌, not, List, [], ◌∷◌, Result, ok, err, ◌>>=◌, ◌>>◌, guard,
  map_err, Option, none, some, if◌then◌else◌,
}
use rbln_k8s_dra_driver.Go.Text.{Text, codes, text_eq}
use rbln_k8s_dra_driver.Go.Errors.{Error, message, wrap}

-- `metav1.GroupVersionResource`
pub record Resource : Type 0 where
  pub group : Text
  pub version : Text
  pub resource : Text

unfoldable pub same_resource : Resource → Resource → Bool
same_resource a b =
    text_eq a.group b.group && (text_eq a.version b.version && text_eq a.resource b.resource)

abbrev pub claims_of : Text → Resource
claims_of v = record {
  group = codes "resource.k8s.io";
  version = v;
  resource = codes "resourceclaims";
}

abbrev pub claim_templates_of : Text → Resource
claim_templates_of v = record {
  group = codes "resource.k8s.io";
  version = v;
  resource = codes "resourceclaimtemplates";
}

-- The Go types of the objects that a request may carry.
pub data Version : Type 0 where
  v1 v1beta1 v1beta2 : Version

pub data ObjectType : Type 0 where
  claim_type claim_template_type : Version → ObjectType

unfoldable pub claim_version : Resource → Option Version
unfolding same_resource
claim_version r =
    if same_resource r (claims_of (codes "v1"))
    then some v1
    else if same_resource r (claims_of (codes "v1beta1"))
    then some v1beta1
    else if same_resource r (claims_of (codes "v1beta2"))
    then some v1beta2
    else none

unfoldable pub claim_template_version : Resource → Option Version
unfolding same_resource
claim_template_version r =
    if same_resource r (claim_templates_of (codes "v1"))
    then some v1
    else if same_resource r (claim_templates_of (codes "v1beta1"))
    then some v1beta1
    else if same_resource r (claim_templates_of (codes "v1beta2"))
    then some v1beta2
    else none

-- The part of an AdmissionReview that is read.
pub record Request : Type 0 where
  pub uid : Text
  pub resource : Resource
  pub raw : Text

-- `schema.GroupVersionKind`
pub record GroupVersionKind : Type 0 where
  pub group : Text
  pub version : Text
  pub kind : Text

unfoldable pub same_kind : GroupVersionKind → GroupVersionKind → Bool
same_kind a b = text_eq a.group b.group && (text_eq a.version b.version && text_eq a.kind b.kind)

-- `admissionv1.SchemeGroupVersion.WithKind("AdmissionReview")`
abbrev pub admission_review_kind : GroupVersionKind
admission_review_kind = record {
  group = codes "admission.k8s.io";
  version = codes "v1";
  kind = codes "AdmissionReview";
}

-- A decoded body: the kind that the decoder reports, whether the object is a
-- `*admissionv1.AdmissionReview`, and the kind and the request that this object holds.
pub record Review : Type 0 where
  pub reported : GroupVersionKind
  pub is_v1 : Bool
  pub kind : GroupVersionKind
  pub request : Option Request

-- The scheme: decoding into an object of a type, converting it to v1, decoding a review, and
-- encoding a review of a kind with a response.
pub record Response : Type 0 where
  pub allowed : Bool
  pub uid : Text
  -- the message of the result with reason BadRequest
  pub rejection : Option Error

pub record Scheme : Type 1 where
  pub Object : Type 0
  pub decode : ObjectType → Text → Result Error Object
  pub convert : Object → Result Error (Unit {0})
  pub decode_review : Text → Result Error Review
  pub encode : GroupVersionKind → Response → Result Error Text

unfoldable pub claim_object : Option Version → Option ObjectType
claim_object none = none
claim_object (some v) = some (claim_type v)

unfoldable pub claim_template_object : Option Version → Option ObjectType
claim_template_object none = none
claim_template_object (some v) = some (claim_template_type v)

unfoldable pub allow_if : Result Error (Unit {0}) → Response
allow_if (ok u) = record { allowed = true; uid = []; rejection = none }
allow_if (err e) = record { allowed = false; uid = []; rejection = some e }

unfoldable pub is_some_version : Option Version → Bool
is_some_version none = false
is_some_version (some v) = true

-- The kind of the review, and its request.
unfoldable pub checked_review : Review → Result Error (GroupVersionKind × Request)
unfolding same_kind
checked_review review = do
  guard (same_kind review.reported admission_review_kind) (message "unsupported group version kind")
  guard review.is_v1 (message "expected v1.AdmissionReview")
  elim review.request [
    | none ↦ err (message "AdmissionReview carries no request")
    | some request ↦ ok (review.kind, request)
  ]

module _ (scheme : Scheme) where
  unfoldable pub extract : Option ObjectType → Text → Result Error (Unit {0})
  extract none raw = err (message "unsupported resource version")
  extract (some type) raw = do
    object ← scheme.decode type raw
    map_err (wrap "failed to convert to v1") (scheme.convert object)

  -- `extractResourceClaim`, of which only the error is used
  unfoldable pub extract_resource_claim : Request → Result Error (Unit {0})
  unfolding extract claim_object
  extract_resource_claim r = extract (claim_object (claim_version r.resource)) r.raw

  -- `extractResourceClaimTemplate`
  unfoldable pub extract_resource_claim_template : Request → Result Error (Unit {0})
  unfolding extract claim_template_object
  extract_resource_claim_template r =
      extract (claim_template_object (claim_template_version r.resource)) r.raw

  -- `admitResourceClaimParameters`
  unfoldable pub admit : Request → Response
  unfolding allow_if is_some_version extract_resource_claim extract_resource_claim_template
  admit r =
      if is_some_version (claim_version r.resource)
      then allow_if (extract_resource_claim r)
      else if is_some_version (claim_template_version r.resource)
      then allow_if (extract_resource_claim_template r)
      else allow_if (err (message "unexpected resource"))

  -- `readAdmissionReview`
  unfoldable pub read_admission_review : Text → Result Error (GroupVersionKind × Request)
  unfolding checked_review
  read_admission_review body =
      map_err (wrap "request could not be decoded") (scheme.decode_review body) >>= checked_review

-- What `serve` writes: a body, or an HTTP error.
pub data Reply : Type 0 where
  body : Text → Reply
  internal_server_error unsupported_media_type bad_request : Reply

unfoldable pub encoded : Result Error Text → Reply
encoded (ok bytes) = body bytes
encoded (err e) = internal_server_error

module _ (scheme : Scheme) where
  unfoldable pub answer : Result Error (GroupVersionKind × Request) → Reply
  unfolding encoded admit
  answer (err e) = bad_request
  answer (ok (kind, r)) = encoded (scheme.encode kind (record (admit scheme r) { uid = r.uid }))

  -- `serve`, by what `io.ReadAll` gave on the body and the content type.
  unfoldable pub serve : Result Error Text → Text → Reply
  unfolding answer read_admission_review
  serve (err e) content_type = internal_server_error
  serve (ok data_read) content_type =
      if text_eq content_type (codes "application/json")
      then answer (read_admission_review scheme data_read)
      else unsupported_media_type
