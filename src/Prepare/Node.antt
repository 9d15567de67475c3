-- ===== src/Prepare/Node.antt =====
-- `waitForDeviceNode` and `newDeviceNode`, and the edits for one device.
use rbln_k8s_dra_driver.Base.{
  ℕ, zero, suc, ◌+◌, ◌*◌, ◌≤◌, ◌<◌, ltb, ◌≡◌, ◌≢◌, Bool, true, false, ◌||◌, not, List, [], ◌∷◌,
  Result, ok, err, ◌>>=◌, ◌>>◌, guard, map_err, Option, none, some, ℤ, arith, inl, inr,
  Option-cases, Result-cases, Bool-cases, subst,
}
use rbln_k8s_dra_driver.Go.Text.{Text, codes, text_eq, is_empty}
use rbln_k8s_dra_driver.Go.Number.{format_int}
use rbln_k8s_dra_driver.Go.FilePath.{FilePath, join, base}
use rbln_k8s_dra_driver.Go.Errors.{not_exist, errno, Error, os, message, wrap}
use rbln_k8s_dra_driver.Go.Maps.{lookup, text_key}
use rbln_k8s_dra_driver.Device.Defs.{
  Device, device_string_attr, device_int_attr, device_node_name_key, iommu_group_key,
}
use rbln_k8s_dra_driver.State.Defs.{AllocatableDevices}
use rbln_k8s_dra_driver.Claim.{DeviceNode, Mount, ContainerEdits, no_edits}
use rbln_k8s_dra_driver.Host.{Host, Polls}

-- `deviceNodePollTimeout` and `deviceNodePollInterval`, in milliseconds
abbrev pub poll_timeout : ℕ
poll_timeout = 5000

abbrev pub poll_interval : ℕ
poll_interval = 100

-- The rounds of the loop from the i-th on. `none` means that the fuel ran out.
unfoldable pub poll : Polls → ℕ → ℕ → Option (Result Error (Unit {0}))
poll p zero i = none
poll p (suc fuel) i = elim (p.stat i) [
  | ok u ↦ some (ok tt)
  | err e ↦ elim e [
    | errno n ↦ some (err (os (errno n)))
    | not_exist ↦ elim (ltb poll_timeout (p.elapsed i)) [
      | true ↦ some (err (os not_exist))
      | false ↦ poll p fuel (i + 1)
    ]
  ]
]

-- Rounds enough for the timeout at this interval: 5000 / 100 + 2.
abbrev pub poll_fuel : ℕ
poll_fuel = 52

unfoldable pub poll_result : Option (Result Error (Unit {0})) → Result Error (Unit {0})
poll_result none = err (message "out of fuel")
poll_result (some r) = r

-- `waitForDeviceNode`
unfoldable pub wait_for_device_node : Polls → Result Error (Unit {0})
unfolding poll poll_result
wait_for_device_node p = poll_result (poll p poll_fuel 0)

-- A round sleeps for the interval at least.
abbrev pub IsPaced : Polls → Type 0
IsPaced p = (i : ℕ) → p.elapsed i + poll_interval ≤ p.elapsed (i + 1)

poll-ne-none :
    (p : Polls)
    → IsPaced p
    → (fuel i : ℕ) → poll_timeout < p.elapsed i + fuel * poll_interval
    → poll p (suc fuel) i ≢ none
unfolding poll
poll-ne-none p paced zero i h = ground arith
poll-ne-none p paced (suc fuel) i h = ground (arith, paced i, poll-ne-none p paced fuel (i + 1))

-- The cause for which the loop ends in a round, with its result.
pub data Cause (p : Polls) (i : ℕ) : Result Error (Unit {0}) → Type 0 where
  appeared : p.stat i ≡ ok tt → Cause p i (ok tt)
  failed : {n : ℕ} → p.stat i ≡ err (errno n) → Cause p i (err (os (errno n)))
  timed_out : p.stat i ≡ err not_exist → poll_timeout < p.elapsed i → Cause p i (err (os not_exist))

-- A round after which the loop goes on.
abbrev pub Waits : Polls → ℕ → Type 0
Waits p i = (p.stat i ≡ err not_exist) × (p.elapsed i ≤ poll_timeout)

poll-Cause :
    (p : Polls) (fuel i : ℕ) (r : Result Error (Unit {0}))
    → poll p fuel i ≡ some r
    → (n : ℕ) × (i ≤ n) × (n < i + fuel) × ((j : ℕ) → i ≤ j → j < n → Waits p j) × Cause p n r
unfolding poll
poll-Cause p zero i r e = absurd (ground arith)
poll-Cause p (suc fuel) i r e = elim (Result-cases (p.stat i)) [
  | inl (u, q) ↦
      let same : r ≡ ok tt = ground arith in
      (i, omega arith, omega arith, λ j a b. absurd (omega (arith, a, b)), rw same (appeared q))
  | inr (errno n, q) ↦
      let same : r ≡ err (os (errno n)) = ground arith in
      (i, omega arith, omega arith, λ j a b. absurd (omega (arith, a, b)), rw same (failed q))
  | inr (not_exist, q) ↦ elim (Bool-cases (ltb poll_timeout (p.elapsed i))) [
    | inl late ↦
        let same : r ≡ err (os not_exist) = ground arith in
        (
          i,
          omega arith,
          omega arith,
          λ j a b. absurd (omega (arith, a, b)),
          rw same (timed_out q (ground arith)),
        )
    | inr early ↦
        let (n, low, high, before, cause) = poll-Cause p fuel (i + 1) r (ground arith) in
        (
          n,
          omega arith,
          omega arith,
          λ j a b. elim (Bool-cases (ltb i j)) [
            | inl past ↦ before j (ground arith) b
            | inr now ↦ subst (Waits p) (ground arith) (q, ground arith)
          ],
          cause,
        )
  ]
]

-- Where each round takes its interval at least, the loop ends before its fuel does, in the first
-- round that does not find the node missing or that comes after the timeout: with success where the
-- node is there, with the error of the call where it fails otherwise, and as missing where the
-- timeout has passed.
pub poll_ends :
    (p : Polls)
    → IsPaced p
    → (n : ℕ) × (n < poll_fuel) × ((j : ℕ) → j < n → Waits p j) × Cause p n (wait_for_device_node p)
unfolding wait_for_device_node poll_result
poll_ends p paced = elim (Option-cases (poll p poll_fuel 0)) [
  | inl e ↦ absurd (poll-ne-none p paced 51 0 (omega arith) e)
  | inr (r, e) ↦
      let (n, low, high, before, cause) = poll-Cause p poll_fuel 0 r e in
      (n, omega arith, λ j b. before j (omega arith) b, rw e cause)
]

-- The test on the name of a native device node.
unfoldable pub is_node_name : Text → Bool
is_node_name name = not (
    is_empty name
    || (text_eq name (codes ".") || (text_eq name (codes "..") || not (text_eq (base name) name))))

unfoldable pub checked_iommu_group : Option ℤ → Result Error Text
checked_iommu_group none = err (message "device is missing its IOMMU group")
checked_iommu_group (some group) = ok (format_int group)

-- `deviceIOMMUGroup`
unfoldable pub device_iommu_group : Device → Result Error Text
unfolding checked_iommu_group
device_iommu_group d = checked_iommu_group (device_int_attr d iommu_group_key)

module _ (h : Host) (s : h.State) where
  -- `newDeviceNode`
  unfoldable pub new_device_node : FilePath → FilePath → Result Error DeviceNode
  new_device_node container_path host_path = do
    map_err (wrap "stat device") (wait_for_device_node (h.polls s host_path))
    ok (record {
      path = container_path;
      host_path = host_path;
      permissions = [];
      uid = none;
      gid = none;
    })

  unfoldable pub native_node : Option Device → Result Error DeviceNode
  unfolding is_node_name
  native_node none = err (message "allocatable device not found")
  native_node (some allocatable) = do
    let node_name = device_string_attr allocatable device_node_name_key
    guard (is_node_name node_name) (message "invalid native device node name")
    let path = join (codes "dev" ∷ []) node_name
    map_err (wrap "rbln device node") (new_device_node path path)

  -- `applyConfig`
  unfoldable pub apply_config : AllocatableDevices → Text → FilePath → Result Error ContainerEdits
  unfolding native_node
  apply_config allocatable name host_rsd_path = do
    rsd_node ←
        map_err (wrap "rsd device node")
          (new_device_node (codes "dev" ∷ codes "rsd0" ∷ []) host_rsd_path)
    rbln_node ← native_node (lookup name allocatable)
    ok (record no_edits { device_nodes = rsd_node ∷ rbln_node ∷ [] })

  -- One round of the loop of `vfioContainerEdits`.
  unfoldable pub vfio_node : FilePath → Result Error DeviceNode
  vfio_node path = do
    map_err (wrap "vfio device node") (wait_for_device_node (h.polls s path))
    ok (record {
      path = path;
      host_path = path;
      permissions = codes "mrw";
      uid = some 107;
      gid = some 107;
    })

  -- `vfioContainerEdits`
  unfoldable pub vfio_container_edits : Device → List Mount → Result Error ContainerEdits
  unfolding device_iommu_group vfio_node
  vfio_container_edits d metadata_mounts = do
    group ← device_iommu_group d
    container_node ← vfio_node (codes "dev" ∷ codes "vfio" ∷ codes "vfio" ∷ [])
    group_node ← vfio_node (join (codes "dev" ∷ codes "vfio" ∷ []) group)
    ok (record no_edits {
      device_nodes = container_node ∷ group_node ∷ [];
      mounts = metadata_mounts;
    })
