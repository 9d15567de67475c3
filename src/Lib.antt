-- ===== src/Lib.antt =====
-- A model of the Rebellions NPU driver for Kubernetes dynamic resource allocation, and theorems
-- about it.
--
-- The node plugin (cmd/npu-kubelet-plugin) finds the NPUs of a node, publishes them as a resource
-- slice, and prepares the devices of a claim for its containers. Its parts, and the files that model
-- them:
--   Base, Go           shared notation; the parts of Go's standard library that the program uses:
--                      strings, strconv, filepath, errors and maps. A string is its list of bytes,
--                      a path its list of segments, a map an association list.
--   Pci                pci_sysfs.go: sysfs values, PCI addresses. `Sysfs` is the file system.
--   Sriov              sriov.go: probeSRIOV and the names and attributes of VFs.
--   Device             the published devices, with the accessors and setters of state.go; the loop
--                      that both enumerations share.
--   Vfio, Native       vfio.go, and npuDevicesFromInventory of state.go with countNativeCandidates of
--                      scan.go: the passthrough and the native devices.
--   Validate           validate_device.go: the check of a device before it is prepared.
--   State              DeviceState of state.go and RescanDevices of scan.go. One scan is one step:
--                      its reads are an argument (`Reads`), with a file system for each of the three
--                      walks, since sysfs may change between them; the result is an `Outcome`.
--   Claim, Cdi, Metadata   the data of claims and types.go, cdi.go and kubevirt_metadata.go.
--   Host               what the plugin asks of the node and of its libraries: a record of calls on an
--                      abstract state. `KeepsCheckpoint` states what the checkpoint manager documents,
--                      `KeepsSpecs` of Cdi/Specs.antt what the cache of the CDI library does,
--                      `KeepsFiles` of Host/Files.antt what files do, and `KeepsDirs` of
--                      Host/Dirs.antt what the removal of directories does.
--   Prepare            Prepare, Unprepare and all they call in state.go, as functions on the state of
--                      the host that return a result and the new state, after failures too.
--   Rsd                rsd_group.go: the creation of an RSD group, the inventory that rbln-smi
--                      prints, and the test of the group against it.
--   Checkpoint         checkpoint.go: the encoding of the checkpoint with its checksum.
--   Startup            NewDeviceState of state.go.
--   Driver             driver.go: the start, the loop of scans that publishes the slice, the loops
--                      over the claims of a request, and the end.
--   Health             health.go: the start and the answers of the health service.
--   Config, KubeClient   the flags of both programs, and pkg/flags/kubeclient.go.
--   Plugin             main.go: from the arguments to the end of the process.
--   Logging            pkg/logging: levels, formats and the setup from the environment (logging.go),
--                      the rewriting of attributes, the relay of standard error (glog.go), and the
--                      adapter for grpc (grpclog.go); the loggers of contexts, on what klog documents
--                      (`KeepsLoggers` of Logging/Klog.antt); internal/logtest.
--   Webhook            cmd/webhook/main.go and resource.go: the routes and the admission decision.
--   Tests              a node with two NPUs and a host, on which each theorem is applied.
--
-- Plugin starts Logging and the Driver, which starts the device state, the health service and the
-- loop of scans. A scan and a claim meet in the map of allocatable devices: State builds it, Prepare
-- looks devices up in it and checks them against sysfs again. Prepare and Rsd meet in the RSD group
-- of a claim's native devices.
--
-- Mutexes have no counterpart: an operation under the lock is one step. Numbers read from sysfs are
-- 64-bit integers, and parsing fails outside their range. Loops are structural recursion, but for the
-- polling of a device node, which runs on fuel 52 = 5000 / 100 + 2 rounds, enough for its timeout
-- where each round takes its interval at least, and the printing of decimals, whose fuel is above
-- the number. Errors keep their kind and the text of their wrapping, not the values printed in it.
-- Every check on an error, not-exist or unsupported, is on the kind. A polling loop that had no fuel
-- left would give an error that the code does not have; with that pace this does not happen. Letters
-- and blanks are those of ASCII. The host's laws ask more than package os promises in one place: no
-- call on files, at any path, touches the checkpoint or the CDI specs.
--
-- Not modelled: log records, except those above debug level of a startup and a scan, and those that
-- the relay of standard error makes; the JSON of checkpoints, specs, metadata and captured records,
-- the parsing of flags, signals and running servers, which are up to libraries.
pub mod Base
pub mod Go
pub mod Pci
pub mod Sriov
pub mod Device
pub mod Vfio
pub mod Native
pub mod Validate
pub mod State
pub mod Claim
pub mod Host
pub mod Cdi
pub mod Metadata
pub mod Rsd
pub mod Checkpoint
pub mod Prepare
pub mod Config
pub mod Driver
pub mod Health
pub mod Logging
pub mod Webhook
pub mod Startup
pub mod Plugin
pub mod KubeClient
pub mod Tests
