-- ===== src/Logging.antt =====
-- pkg/logging and internal/logtest: the levels and formats of the logger, the rewriting of its
-- attributes, the relays of the records of other libraries, and the capture of records for tests.
pub mod Level
pub mod Setup
pub mod Attrs
pub mod Laws
pub mod Glog
pub mod Grpc
pub mod Klog
pub mod Capture
pub mod Lines
