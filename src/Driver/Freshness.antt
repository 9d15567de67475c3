-- ===== src/Driver/Freshness.antt =====
-- From a successful start on, the published slice follows what the scans read.
use rbln_k8s_dra_driver.Base.{
  ℕ, ◌≡◌, refl, ap, sym, ◌∙◌, true, List, [], ◌∷◌, ◌++◌, ok, none, arith, ◌⊎◌, inl, inr,
}
use rbln_k8s_dra_driver.Host.{Host}
use rbln_k8s_dra_driver.Host.Laws.{KeepsCheckpoint, >>=-ok}
use rbln_k8s_dra_driver.Config.{Flags}
use rbln_k8s_dra_driver.Device.Defs.{Device}
use rbln_k8s_dra_driver.Device.Enumeration.{Enumeration}
use rbln_k8s_dra_driver.State.Defs.{DeviceState, DriverResources}
use rbln_k8s_dra_driver.State.Delta.{DeepEqual}
use rbln_k8s_dra_driver.State.Rescan.{Reads, Outcome, rescan_devices}
use rbln_k8s_dra_driver.State.Invariant.{
  IsIndexed, SameInventory, Scanned, Ends, failed, unchanged, replaced, rescan_devices-Ends,
}
use rbln_k8s_dra_driver.State.Scans.{Published, rescan_devices_success}
use rbln_k8s_dra_driver.Startup.{new_device_state_lem}
use rbln_k8s_dra_driver.Driver.{Driver, Tick, observe_scan_duration, scan_tick, run_device_scan}
use rbln_k8s_dra_driver.Driver.Slice.{AllAccepted, publish-Ends, run_device_scan_lem}
use rbln_k8s_dra_driver.Driver.Start.{Libraries, Started, serve_state, start_state, new_driver}

same-IsIndexed : (s t : DeviceState) → SameInventory s t → IsIndexed s → IsIndexed t
same-IsIndexed s t (n, v, a, d, name) i = record {
  indexed = rw (n, v, a) (i.indexed);
  published = rw (n, v, d, name) (i.published);
}

Ends-IsIndexed :
    (eq : DeepEqual) (r : Reads) (s : DeviceState) (o : Outcome)
    → Ends eq r s o
    → IsIndexed s
    → IsIndexed o.state
Ends-IsIndexed eq r s o (failed e same _ _ _) i = same-IsIndexed s o.state same i
Ends-IsIndexed eq r s o (unchanged npu vfio _ same _ _ _ _ _) i = same-IsIndexed s o.state same i
Ends-IsIndexed eq r s o (replaced npu vfio _ n v indexed nodup _ _ _) i = indexed

scan_tick-IsIndexed :
    (eq : DeepEqual) (interval : ℕ) (t : Tick) (d : Driver)
    → IsIndexed d.state
    → IsIndexed (scan_tick eq interval t d).state
unfolding scan_tick observe_scan_duration
scan_tick-IsIndexed eq interval t d i =
    let after = Ends-IsIndexed eq t.reads d.state _ (rescan_devices-Ends eq t.reads d.state) i in
    record { indexed = after.indexed; published = after.published }

run_device_scan-IsIndexed :
    (eq : DeepEqual) (interval : ℕ) (ticks : List Tick) (d : Driver)
    → IsIndexed d.state
    → IsIndexed (run_device_scan eq interval ticks d).state
unfolding run_device_scan
run_device_scan-IsIndexed eq interval [] d i = i
run_device_scan-IsIndexed eq interval (t ∷ ticks) d i =
    run_device_scan-IsIndexed eq interval ticks (scan_tick eq interval t d)
      (scan_tick-IsIndexed eq interval t d i)

module _ (h : Host) (k : KeepsCheckpoint h) (lib : Libraries h) where
  serve_state-ok :
      (flags : Flags) (state : DeviceState) (s : h.State) (started : Started)
      → (serve_state h lib flags state s).0 ≡ ok started
      → (started.driver.state ≡ state) × (started.driver.slice ≡ state.driver_resources)
  unfolding serve_state
  serve_state-ok flags state s started e = ground arith

  -- A driver that has started publishes the inventory that it has built.
  new_driver-IsIndexed :
      (flags : Flags) (r : Reads) (s : h.State) (started : Started)
      → (new_driver h lib flags r s).0 ≡ ok started
      → IsIndexed started.driver.state
        × (started.driver.slice ≡ started.driver.state.driver_resources)
  unfolding new_driver start_state
  new_driver-IsIndexed flags r s started e =
      let (state, made, rest) =
        >>=-ok h (start_state h lib flags r) (serve_state h lib flags) s started e in
      let (same, published) = serve_state-ok flags state _ started (sym (ap (λ x. x.0) rest) ∙ e) in
      let indexed =
        (new_device_state_lem h k flags.node_name r _ _ lib.list_checkpoints s state made).0 in
      rw same (indexed, published)

-- The slice holds these native devices and these passthrough devices, up to the comparison by which
-- a scan finds its lists unchanged.
abbrev pub Same : DeepEqual → List Device → List Device → Type 0
Same eq read kept = (read ≡ kept) ⊎ (eq.same_devices read kept ≡ true)

abbrev pub Holds : DeepEqual → DriverResources → Enumeration → Enumeration → Type 0
Holds eq slice npu vfio =
    (n : List Device) × (v : List Device) × (slice.devices ≡ n ++ v)
    × Same eq npu.0 n
    × Same eq vfio.0 v

Published-Holds :
    (eq : DeepEqual) (s : DeviceState) (r : Reads) (o : Outcome) (npu vfio : Enumeration)
    → IsIndexed o.state
    → Published eq r s npu vfio o
    → Holds eq o.state.driver_resources npu vfio
Published-Holds eq s r o npu vfio i (inl (c, n, v, d)) =
    (npu.0, vfio.0, rw (i.published, n, v) refl, inl refl, inl refl)
Published-Holds eq s r o npu vfio i (inr (c, (n, v, a, d, name), e, en, ev)) =
    (s.npu_devices, s.vfio_devices, rw (i.published, n, v) refl, inr en, inr ev)

scan_tick-Holds :
    (eq : DeepEqual) (interval : ℕ) (t : Tick) (d : Driver)
    → IsIndexed d.state
    → d.slice ≡ d.state.driver_resources
    → t.accepted ≡ true
    → (rescan_devices eq t.reads d.state).error ≡ none
    → (npu : Enumeration) × (vfio : Enumeration) × Scanned t.reads d.state npu vfio
      × Holds eq (scan_tick eq interval t d).slice npu vfio
unfolding scan_tick
scan_tick-Holds eq interval t d i same taken done =
    let ends = rescan_devices-Ends eq t.reads d.state in
    let (npu, vfio, sc, p) = rescan_devices_success eq t.reads d.state done in
    (
      npu,
      vfio,
      sc,
      rw (publish-Ends eq t d.state (rescan_devices eq t.reads d.state) d.slice ends taken same) (
          Published-Holds eq d.state t.reads (rescan_devices eq t.reads d.state) npu vfio
            (Ends-IsIndexed eq t.reads d.state _ ends i) p),
    )

module _ (h : Host) (k : KeepsCheckpoint h) (lib : Libraries h) where
  -- Where the checkpoint is kept as documented and every publication is accepted: after a successful
  -- start and any number of scans, however these ended, the next scan that succeeds leaves a
  -- published slice that holds exactly the devices that this scan has read, up to the comparison by
  -- which a scan finds a list unchanged.
  pub new_driver-scan_tick :
      (eq : DeepEqual) (interval : ℕ) (flags : Flags) (r : Reads) (s : h.State) (started : Started)
      (ticks : List Tick) (t : Tick)
      → (new_driver h lib flags r s).0 ≡ ok started
      → AllAccepted ticks
      → t.accepted ≡ true
      → let d = run_device_scan eq interval ticks started.driver in
        (rescan_devices eq t.reads d.state).error ≡ none
        → (npu : Enumeration) × (vfio : Enumeration) × Scanned t.reads d.state npu vfio
          × Holds eq (scan_tick eq interval t d).slice npu vfio
  new_driver-scan_tick eq interval flags r s started ticks t e taken more done =
      let (indexed, published) = new_driver-IsIndexed h k lib flags r s started e in
      scan_tick-Holds eq interval t (run_device_scan eq interval ticks started.driver)
        (run_device_scan-IsIndexed eq interval ticks started.driver indexed)
        (run_device_scan_lem eq interval ticks started.driver taken published) more done
