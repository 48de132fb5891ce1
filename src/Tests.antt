-- ===== src/Tests.antt =====
-- Runs of the theorems on concrete nodes, registries and frames.
pub mod Data
pub mod Keys
pub mod Wire
pub mod Sends
pub mod Nodes
pub mod Bundles
mod Routers
mod Floods
mod Transports
mod Links
mod Sessions
mod Subscribers
mod Networks
