-- ===== src/Host.antt =====
-- What the plugin asks of the node and of the libraries that act on it.
mod Interface
mod Actions
pub mod Laws
pub mod Files
pub mod Dirs
pub use Interface.*
pub use Actions.*
