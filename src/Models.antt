-- ===== src/Models.antt =====
-- The data of the program: backend/models, the DTOs of backend/providers/base.py, the inputs of the
-- risk manager (backend/risk/models.py) and the rule schemas (backend/rules/models.py).
pub mod Json
mod Enums
mod Values
mod Tweets
mod Orders
mod Rules
mod Rows
pub use Enums.*
pub use Values.*
pub use Tweets.*
unfoldable pub use Orders.*
pub use Rules.*
pub use Rows.*
