-- ===== src/Manager.antt =====
-- comnetsemu/net.py: `APPContainerManager` with its request handler, and `APPContainer` of
-- comnetsemu/node.py.
pub mod Data
pub mod Docker
pub mod State
pub mod Rules
pub mod Synced
pub mod Lifecycle
pub mod Waiting
pub mod Prepared
pub mod Args
pub mod RestLaws
pub mod Create
pub mod Container
pub mod Reused
pub mod Rest
mod Tests
