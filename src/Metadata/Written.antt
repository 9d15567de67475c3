-- ===== src/Metadata/Written.antt =====
-- The files that `writeKubeVirtMetadata` of cmd/npu-kubelet-plugin/kubevirt_metadata.go leaves.
use rbln_k8s_dra_driver.Base.{
  ◌≡◌, refl, ap, ◌∙◌, true, false, ◌&&◌, List, [], ◌∷◌, ◌++◌, ok, Option, arith, inl, inr,
  Result-cases,
}
use rbln_k8s_dra_driver.Go.Text.{Text, codes, text_eq, text_eq_refl}
use rbln_k8s_dra_driver.Go.FilePath.{
  FilePath, join, drop_last, path_eq, is_element, join-is_element, drop_last-append,
  path_base-append,
}
use rbln_k8s_dra_driver.Go.Maps.{text_key}
use rbln_k8s_dra_driver.Claim.{driver_name}
use rbln_k8s_dra_driver.Host.{Host, Metadata, MetadataDevice}
use rbln_k8s_dra_driver.Host.Files.{Holds, KeepsFiles}
use rbln_k8s_dra_driver.Metadata.{kubevirt_metadata_file_path, tmp_path, write_request}

abbrev pub file_name : Text
file_name = driver_name ++ codes "-metadata.json"

file_name-is_element : is_element file_name ≡ true
unfolding is_element text_eq
file_name-is_element = refl

pub file_path-segments :
    (dir : FilePath) (request : Text)
    → is_element request ≡ true
    → kubevirt_metadata_file_path dir request ≡ dir ++ (request ∷ []) ++ (file_name ∷ [])
unfolding kubevirt_metadata_file_path
file_path-segments dir request e =
    join-is_element (join dir request) file_name file_name-is_element
    ∙ ap (λ p. p ++ (file_name ∷ [])) (join-is_element dir request e)

tmp_path-segments :
    (dir : FilePath) (request : Text)
    → is_element request ≡ true
    → tmp_path (kubevirt_metadata_file_path dir request)
      ≡ dir ++ (request ∷ []) ++ ((file_name ++ codes ".tmp") ∷ [])
unfolding tmp_path
tmp_path-segments dir request e =
    rw
      (
        file_path-segments dir request e,
        drop_last-append (dir ++ (request ∷ [])) file_name,
        path_base-append (dir ++ (request ∷ [])) file_name,
      )
      refl

path_eq-segments :
    (dir : FilePath) (r r' f f' : Text)
    → path_eq (dir ++ (r ∷ []) ++ (f ∷ [])) (dir ++ (r' ∷ []) ++ (f' ∷ []))
      ≡ (text_eq r r' && text_eq f f')
unfolding path_eq
path_eq-segments [] r r' f f' = ground arith
path_eq-segments (x ∷ dir) r r' f f' =
    ground (arith, text_eq_refl x, path_eq-segments dir r r' f f')

path_eq-deeper :
    (dir : FilePath) (r f m : Text)
    → path_eq (dir ++ (r ∷ []) ++ (f ∷ [])) (dir ++ (m ∷ [])) ≡ false
unfolding path_eq
path_eq-deeper [] r f m = ground arith
path_eq-deeper (x ∷ dir) r f m = ground (arith, path_eq-deeper dir r f m)

tmp_name_differs : text_eq (file_name ++ codes ".tmp") file_name ≡ false
unfolding text_eq
tmp_name_differs = refl

-- A path that the files of a request do not touch.
abbrev pub IsAside : FilePath → Text → FilePath → Type 0
IsAside dir request q =
    (path_eq (tmp_path (kubevirt_metadata_file_path dir request)) q ≡ false)
    × (path_eq (kubevirt_metadata_file_path dir request) q ≡ false)

pub other_request-IsAside :
    (dir : FilePath) (r r' : Text)
    → is_element r ≡ true
    → is_element r' ≡ true
    → text_eq r r' ≡ false
    → IsAside dir r (kubevirt_metadata_file_path dir r')
other_request-IsAside dir r r' e e' n = (
  rw (tmp_path-segments dir r e, file_path-segments dir r' e', path_eq-segments, n) refl,
  rw (file_path-segments dir r e, file_path-segments dir r' e', path_eq-segments, n) refl,
)

pub marker-IsAside :
    (dir : FilePath) (r m : Text) → is_element r ≡ true → IsAside dir r (dir ++ (m ∷ []))
marker-IsAside dir r m e = (
  rw (tmp_path-segments dir r e) (path_eq-deeper dir r _ m),
  rw (file_path-segments dir r e) (path_eq-deeper dir r _ m),
)

-- The document of a request.
abbrev pub document : Option Text → Text → List MetadataDevice → Metadata
document pod_claim_name request_name devices = record {
  api_version = codes "metadata.resource.k8s.io/v1alpha1";
  kind = codes "DeviceMetadata";
  pod_claim_name = pod_claim_name;
  requests = record { name = request_name; devices = devices } ∷ [];
}

-- The file of a request is there, with the JSON of its document.
pub record HasFile (h : Host) (dir : FilePath) (pod_claim_name : Option Text) (s : h.State)
    (request : Text) (devices : List MetadataDevice) : Type 0 where
  pub content : Text
  pub encoded : h.marshal_metadata (document pod_claim_name request devices) ≡ ok content
  pub there : Holds h s (kubevirt_metadata_file_path dir request) content

module _ (h : Host) (root : FilePath) (k : KeepsFiles h root) (dir : FilePath)
    (pod_claim_name : Option Text) where
  -- The steps of a success.
  write_request-steps :
      (request : Text) (devices : List MetadataDevice) (s : h.State)
      → (write_request h dir pod_claim_name request devices s).0 ≡ ok tt
      → let path = kubevirt_metadata_file_path dir request in
        let s1 = (h.mkdir_all (drop_last path) s).1 in
        (content : Text) × (h.marshal_metadata (document pod_claim_name request devices)
          ≡ ok content)
        × ((h.write_file (tmp_path path) content s1).0 ≡ ok tt)
        × ((h.rename (tmp_path path) path (h.write_file (tmp_path path) content s1).1).0 ≡ ok tt)
        × ((write_request h dir pod_claim_name request devices s).1
            ≡ (h.rename (tmp_path path) path (h.write_file (tmp_path path) content s1).1).1)
  unfolding write_request
  write_request-steps request devices s e =
      let path = kubevirt_metadata_file_path dir request in
      elim (Result-cases (h.mkdir_all (drop_last path) s).0) [
        | inr (x, r) ↦ absurd (ground arith)
        | inl (u, r) ↦
            elim (Result-cases (h.marshal_metadata (document pod_claim_name request devices))) [
              | inr (x, m) ↦ absurd (ground arith)
              | inl (content, m) ↦
                  elim (Result-cases
                    (h.write_file (tmp_path path) content (h.mkdir_all (drop_last path) s).1).0) [
                      | inr (x, w) ↦ absurd (ground arith)
                      | inl (v, w) ↦ (content, m, w, ground arith, ground arith)
                    ]
            ]
      ]

  pub write_request-HasFile :
      (request : Text) (devices : List MetadataDevice) (s : h.State)
      → (write_request h dir pod_claim_name request devices s).0 ≡ ok tt
      → HasFile h dir pod_claim_name
          (write_request h dir pod_claim_name request devices s).1
          request
          devices
  write_request-HasFile request devices s e =
      let path = kubevirt_metadata_file_path dir request in
      let (content, m, w, r, last) = write_request-steps request devices s e in
      record {
        content = content;
        encoded = m;
        there =
            ap (λ t. h.read_file t path) last
            ∙ k.rename-ok (tmp_path path) path content _ (k.write-ok (tmp_path path) content _ w) r;
      }

  pub write_request-Holds :
      (request : Text) (devices : List MetadataDevice) (s : h.State) (q : FilePath) (other : Text)
      → IsAside dir request q
      → (write_request h dir pod_claim_name request devices s).0 ≡ ok tt
      → Holds h s q other
      → Holds h (write_request h dir pod_claim_name request devices s).1 q other
  write_request-Holds request devices s q other (aside_tmp, aside) e held =
      let path = kubevirt_metadata_file_path dir request in
      let (content, m, w, r, last) = write_request-steps request devices s e in
      ap (λ t. h.read_file t q) last
      ∙ k.rename-other (tmp_path path) path q content other _
          (k.write-ok (tmp_path path) content _ w) aside_tmp aside
          (k.write-other (tmp_path path) q content aside_tmp _ other
            (k.mkdir_all (drop_last path) q s other held))
