-- ===== src/Risk.antt =====
-- backend/risk: the rules, the manager that runs them all and audits each, and the factory.
mod Rules
mod Manager
pub mod Admission
pub mod Audit
pub mod Bounds
unfoldable pub use Rules.*
unfoldable pub use Manager.*
