-- ===== src/Tests.antt =====
-- Runs of the code on concrete inputs.
pub mod World
pub mod Loading
pub mod Installs
pub mod Registering
pub mod Serving
pub mod Settings
pub mod Clusters
pub mod Tokens
pub mod Installing
pub mod Background
pub mod Registers
pub mod Services
pub mod Restarting
pub mod Overwriting
pub mod Ordering
