-- ===== src/Metadata/Files.antt =====
-- The loop of `writeKubeVirtMetadata` over the requests of a claim:
-- cmd/npu-kubelet-plugin/kubevirt_metadata.go.
use rbln_k8s_dra_driver.Base.{
  ◌≡◌, refl, sym, ap, ◌∙◌, subst, true, List, [], ◌∷◌, ◌++◌, ok, Option, none, some, arith, inl,
  inr, Bool-cases, Result-cases, Option-cases,
}
use rbln_k8s_dra_driver.Go.Text.{Text, text_eq, text_eq_sound, text_eq_sym}
use rbln_k8s_dra_driver.Go.FilePath.{FilePath, is_element}
use rbln_k8s_dra_driver.Go.Maps.{lookup, insert, text_key, lookup-insert}
use rbln_k8s_dra_driver.State.Defs.{AllocatableDevices}
use rbln_k8s_dra_driver.Claim.{driver_name, AllocationResult}
use rbln_k8s_dra_driver.Host.{Host, MetadataDevice}
use rbln_k8s_dra_driver.Host.Files.{Holds, KeepsFiles}
use rbln_k8s_dra_driver.Metadata.{
  kubevirt_metadata_file_path, kubevirt_metadata_request_name, DevicesByRequest, add_device,
  devices_at, group_by_request, write_request, write_requests,
}
use rbln_k8s_dra_driver.Metadata.Written.{
  IsAside, other_request-IsAside, marker-IsAside, HasFile, write_request-HasFile,
  write_request-Holds,
}

-- The requests are names of directories, and none stands twice.
abbrev pub AllNamed : DevicesByRequest → Type 0
AllNamed [] = Unit
AllNamed ((request, devices) ∷ m) = (is_element request ≡ true) × AllNamed m

abbrev pub NodupKeys : DevicesByRequest → Type 0
NodupKeys [] = Unit
NodupKeys ((request, devices) ∷ m) = (lookup request m ≡ none) × NodupKeys m

insert-AllNamed :
    (request : Text) (devices : List MetadataDevice) (m : DevicesByRequest)
    → is_element request ≡ true
    → AllNamed m
    → AllNamed (insert request devices m)
unfolding insert
insert-AllNamed request devices [] e a = (e, tt)
insert-AllNamed request devices ((other, ds) ∷ m) e (f, a) =
    elim (Bool-cases (text_eq other request)) [
      | inl same ↦ rw same (f, a)
      | inr n ↦ rw n (f, insert-AllNamed request devices m e a)
    ]

insert-NodupKeys :
    (request : Text) (devices : List MetadataDevice) (m : DevicesByRequest)
    → NodupKeys m
    → NodupKeys (insert request devices m)
unfolding insert
insert-NodupKeys request devices [] a = (unfold lookup in refl, tt)
insert-NodupKeys request devices ((other, ds) ∷ m) (f, a) =
    elim (Bool-cases (text_eq other request)) [
      | inl same ↦ rw same (f, a)
      | inr n ↦ rw n (
        rw (lookup-insert request other devices m, text_eq_sym request other, n) f,
        insert-NodupKeys request devices m a,
      )
    ]

-- The requests of these results are names of directories.
abbrev pub AllRequestsNamed : List AllocationResult → Type 0
AllRequestsNamed [] = Unit
AllRequestsNamed (result ∷ results) =
    (is_element (kubevirt_metadata_request_name result) ≡ true) × AllRequestsNamed results

pub group_by_request-NodupKeys :
    (allocatable : AllocatableDevices) (results : List AllocationResult) (m : DevicesByRequest)
    → AllRequestsNamed results
    → AllNamed m
    → NodupKeys m
    → AllNamed (group_by_request allocatable m results)
      × NodupKeys (group_by_request allocatable m results)
unfolding group_by_request
group_by_request-NodupKeys allocatable [] m named a n = (a, n)
group_by_request-NodupKeys allocatable (result ∷ results) m (e, named) a n =
    let request = kubevirt_metadata_request_name result in
    elim (Bool-cases (text_eq result.driver driver_name)) [
      | inr theirs ↦ rw theirs (group_by_request-NodupKeys allocatable results m named a n)
      | inl ours ↦ elim (Option-cases (lookup result.device allocatable)) [
        | inl missing ↦
            rw (ours, missing, add_device)
              (group_by_request-NodupKeys allocatable results m named a n)
        | inr (device, found) ↦
            rw (ours, found, add_device)
              (group_by_request-NodupKeys allocatable results
                (insert request
                  (devices_at (lookup request m)
                    ++ (record {
                      driver = driver_name;
                      pool = result.pool;
                      name = result.device;
                      attributes = device.attributes;
                    }
                        ∷ []))
                  m)
                named (insert-AllNamed request _ m e a) (insert-NodupKeys request _ m n))
      ]
    ]

module _ (h : Host) (root : FilePath) (k : KeepsFiles h root) (dir : FilePath)
    (pod_claim_name : Option Text) where
  abbrev AllAside : DevicesByRequest → FilePath → Type 0
  AllAside [] q = Unit
  AllAside ((request, devices) ∷ m) q = IsAside dir request q × AllAside m q

  write_requests-cons :
      (request : Text) (devices : List MetadataDevice) (m : DevicesByRequest) (s : h.State)
      → (write_requests h dir pod_claim_name ((request, devices) ∷ m) s).0 ≡ ok tt
      → let s' = (write_request h dir pod_claim_name request devices s).1 in
        ((write_request h dir pod_claim_name request devices s).0 ≡ ok tt)
        × ((write_requests h dir pod_claim_name m s').0 ≡ ok tt)
        × ((write_requests h dir pod_claim_name ((request, devices) ∷ m) s).1
            ≡ (write_requests h dir pod_claim_name m s').1)
  unfolding write_requests
  write_requests-cons request devices m s e =
      elim (Result-cases (write_request h dir pod_claim_name request devices s).0) [
        | inl (u, r) ↦ (r, ground arith, ground arith)
        | inr (x, r) ↦ absurd (ground arith)
      ]

  pub write_requests-Holds :
      (m : DevicesByRequest) (s : h.State) (q : FilePath) (other : Text)
      → AllAside m q
      → (write_requests h dir pod_claim_name m s).0 ≡ ok tt
      → Holds h s q other
      → Holds h (write_requests h dir pod_claim_name m s).1 q other
  write_requests-Holds [] s q other aside e held = unfold write_requests in held
  write_requests-Holds ((request, devices) ∷ m) s q other (here, aside) e held =
      let (r, e', last) = write_requests-cons request devices m s e in
      ap (λ t. h.read_file t q) last
      ∙ write_requests-Holds m _ q other aside e'
          (write_request-Holds h root k dir pod_claim_name request devices s q other here r held)

  AllAside-request :
      (m : DevicesByRequest) (request : Text)
      → is_element request ≡ true
      → AllNamed m
      → lookup request m ≡ none
      → AllAside m (kubevirt_metadata_file_path dir request)
  AllAside-request [] request e a n = tt
  AllAside-request ((other, devices) ∷ m) request e (f, a) n =
      elim (Bool-cases (text_eq other request)) [
        | inl same ↦ absurd (unfold lookup in ground arith)
        | inr differs ↦ (
          other_request-IsAside dir other request f e differs,
          AllAside-request m request e a (unfold lookup in ground arith),
        )
      ]

  pub write_requests-HasFile :
      (m : DevicesByRequest) (s : h.State) (request : Text) (devices : List MetadataDevice)
      → AllNamed m
      → NodupKeys m
      → (write_requests h dir pod_claim_name m s).0 ≡ ok tt
      → lookup request m ≡ some devices
      → HasFile h dir pod_claim_name (write_requests h dir pod_claim_name m s).1 request devices
  write_requests-HasFile [] s request devices a n e found = absurd (unfold lookup in cc)
  write_requests-HasFile ((other, ds) ∷ m) s request devices (f, a) (n, ns) e found =
      let (r, e', last) = write_requests-cons other ds m s e in
      let s1 = (write_request h dir pod_claim_name other ds s).1 in
      let s2 = (write_requests h dir pod_claim_name m s1).1 in
      subst (λ t. HasFile h dir pod_claim_name t request devices) (sym last)
        (elim (Bool-cases (text_eq other request)) [
          | inr differs ↦
              write_requests-HasFile m s1 request devices a ns e' (unfold lookup in ground arith)
          | inl same ↦
              let at : other ≡ request = text_eq_sound other request same in
              let its : ds ≡ devices = unfold lookup in ground arith in
              let file = write_request-HasFile h root k dir pod_claim_name other ds s r in
              subst (λ t. HasFile h dir pod_claim_name s2 t devices) at
                (subst (λ t. HasFile h dir pod_claim_name s2 other t) its
                  (record {
                    content = file.content;
                    encoded = file.encoded;
                    there =
                        write_requests-Holds m s1 _ file.content (AllAside-request m other f a n) e'
                          file.there;
                  }))
        ])

  pub AllAside-marker :
      (m : DevicesByRequest) (name : Text) → AllNamed m → AllAside m (dir ++ (name ∷ []))
  AllAside-marker [] name a = tt
  AllAside-marker ((request, devices) ∷ m) name (e, a) =
      (marker-IsAside dir request name e, AllAside-marker m name a)
