-- ===== src/Prepare/Sources.antt =====
-- The files behind the metadata mounts of a prepared claim: `Prepare` of
-- cmd/npu-kubelet-plugin/state.go with kubevirt_metadata.go.
use rbln_k8s_dra_driver.Base.{
  ◌≡◌, ◌≢◌, refl, sym, ap, subst, true, List, [], ◌∷◌, ◌++◌, Option, none, some, arith, inl, inr,
  ◌⊎◌, Member, Bool-cases,
}
use rbln_k8s_dra_driver.Go.Text.{Text, text_eq, text_eq_refl, contains}
use rbln_k8s_dra_driver.Go.FilePath.{FilePath, is_element}
use rbln_k8s_dra_driver.Go.Maps.{lookup, text_key}
use rbln_k8s_dra_driver.Device.Defs.{
  Device, is_vfio_device, is_vfio_type, string_value_at, string_of,
}
use rbln_k8s_dra_driver.Claim.{driver_name, AllocationResult, Claim, Mount}
use rbln_k8s_dra_driver.Metadata.{
  kubevirt_metadata_base_path, kubevirt_metadata_host_dir, kubevirt_metadata_file_path,
  kubevirt_metadata_request_name, kubevirt_metadata_mounts, mounts_of,
}
use rbln_k8s_dra_driver.Metadata.Laws.{entry_for, entries_for}
use rbln_k8s_dra_driver.Metadata.Files.{AllRequestsNamed}
use rbln_k8s_dra_driver.Prepare.Devices.{Plugin, device_at, device_or_zero}
use rbln_k8s_dra_driver.Prepare.Claims.{any_vfio, is_vfio_entry}
use rbln_k8s_dra_driver.Prepare.Mounts.{vfio_requests, ours, first_uses, mounts_for}

Member-append :
    {A : Type 0} (x : A) (xs ys : List A) → Member x (xs ++ ys) → Member x xs ⊎ Member x ys
Member-append x [] ys m = inr m
Member-append x (z ∷ xs) ys (inl e) = inl (inl e)
Member-append x (z ∷ xs) ys (inr m) = elim (Member-append x xs ys m) [
  | inl n ↦ inl (inr n)
  | inr n ↦ inr n
]

mounts_of-host_path :
    (path : FilePath) (request : Text) (dirs : List FilePath) (m : Mount)
    → Member m (mounts_of path request dirs)
    → m.host_path ≡ path
unfolding mounts_of
mounts_of-host_path path request [] m n = elim n [ ]
mounts_of-host_path path request (dir ∷ dirs) m (inl e) = ap (λ x. x.host_path) e
mounts_of-host_path path request (dir ∷ dirs) m (inr n) = mounts_of-host_path path request dirs m n

-- The file that is mounted for a request.
abbrev pub source : Claim → Text → FilePath
source claim request =
    kubevirt_metadata_file_path (kubevirt_metadata_host_dir kubevirt_metadata_base_path claim.uid)
      request

kubevirt_metadata_mounts-source :
    (claim : Claim) (request : Text) (m : Mount)
    → Member m (kubevirt_metadata_mounts kubevirt_metadata_base_path claim request)
    → m.host_path ≡ source claim request
unfolding kubevirt_metadata_mounts
kubevirt_metadata_mounts-source claim request m n = mounts_of-host_path _ request _ m n

pub mounts_for-source :
    (claim : Claim) (names : List Text) (m : Mount)
    → Member m (mounts_for claim names)
    → (request : Text) × Member request names × (m.host_path ≡ source claim request)
mounts_for-source claim [] m n = elim n [ ]
mounts_for-source claim (name ∷ names) m n =
    elim (Member-append m (kubevirt_metadata_mounts kubevirt_metadata_base_path claim name)
      (mounts_for claim names) n) [
        | inl here ↦ (name, inl refl, kubevirt_metadata_mounts-source claim name m here)
        | inr later ↦
            let (request, there, same) = mounts_for-source claim names m later in
            (request, inr there, same)
      ]

pub first_uses-Member :
    (seen names : List Text) (name : Text) → Member name (first_uses seen names) → Member name names
unfolding first_uses
first_uses-Member seen [] name m = m
first_uses-Member seen (x ∷ names) name m = elim (Bool-cases (contains seen x)) [
  | inl e ↦ inr (first_uses-Member (x ∷ seen) names name (rw e at m))
  | inr e ↦ elim (rw e at m) [
    | inl here ↦ inl here
    | inr later ↦ inr (first_uses-Member (x ∷ seen) names name later)
  ]
]

device_or_zero-vfio :
    (o : Option Device)
    → is_vfio_device (device_or_zero o) ≡ true
    → (d : Device) × (o ≡ some d) × (is_vfio_device d ≡ true)
unfolding device_or_zero is_vfio_device is_vfio_type string_value_at string_of lookup
device_or_zero-vfio none e = absurd (cc)
device_or_zero-vfio (some d) e = (d, refl, e)

append_nonempty : {A : Type 0} (xs ys : List A) → ys ≢ [] → (xs ++ ys) ≢ []
append_nonempty [] ys n e = n e
append_nonempty (x ∷ xs) ys n e = cc

-- What is known of a request of a passthrough device: it has metadata, and makes the claim one with
-- such devices.
abbrev pub IsWritten : Plugin → List AllocationResult → Text → Type 0
IsWritten p allocated name =
    (is_element name ≡ true)
    × (any_vfio p.allocatable allocated ≡ true)
    × (entries_for p.allocatable name allocated ≢ [])

IsWritten-later :
    (p : Plugin) (result : AllocationResult) (results : List AllocationResult) (name : Text)
    → IsWritten p results name
    → IsWritten p (result ∷ results) name
unfolding any_vfio entries_for
IsWritten-later p result results name (el, any, n) =
    elim (Bool-cases (text_eq result.driver driver_name)) [
      | inl ours ↦ (el, ground arith, rw ours (append_nonempty _ _ n))
      | inr theirs ↦ (el, ground arith, rw theirs n)
    ]

IsWritten-here :
    (p : Plugin) (result : AllocationResult) (results : List AllocationResult)
    → is_element (kubevirt_metadata_request_name result) ≡ true
    → text_eq result.driver driver_name ≡ true
    → is_vfio_device (device_at p result.device) ≡ true
    → IsWritten p (result ∷ results) (kubevirt_metadata_request_name result)
unfolding any_vfio entries_for entry_for is_vfio_entry device_at
IsWritten-here p result results e ours v =
    let (d, found, vfio) = device_or_zero-vfio (lookup result.device p.allocatable) v in
    (
      e,
      rw (ours, found, vfio) refl,
      rw (ours, found, text_eq_refl (kubevirt_metadata_request_name result)) (λ z. cc),
    )

pub vfio_requests-IsWritten :
    (p : Plugin) (allocated : List AllocationResult) (name : Text)
    → AllRequestsNamed allocated
    → Member name (vfio_requests p (ours allocated))
    → IsWritten p allocated name
unfolding vfio_requests
vfio_requests-IsWritten p [] name named m = elim m [ ]
vfio_requests-IsWritten p (result ∷ results) name (e, named) m =
    elim (Bool-cases (text_eq result.driver driver_name)) [
      | inr theirs ↦
          IsWritten-later p result results name
            (vfio_requests-IsWritten p results name named (rw theirs at m))
      | inl ours ↦ elim (Bool-cases (is_vfio_device (device_at p result.device))) [
        | inr native ↦
            IsWritten-later p result results name
              (vfio_requests-IsWritten p results name named (rw (ours, native) at m))
        | inl v ↦ elim (rw (ours, v) at m) [
          | inl here ↦
              subst (λ t. IsWritten p (result ∷ results) t) (sym here)
                (IsWritten-here p result results e ours v)
          | inr later ↦
              IsWritten-later p result results name
                (vfio_requests-IsWritten p results name named later)
        ]
      ]
    ]
