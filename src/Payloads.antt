-- ===== src/Payloads.antt =====
-- `action_payloads.py`: the three typed payloads, their validation, and the documents that are
-- hashed. The time zone database and SHA-256 over canonical JSON are the parameters of `Boundary`.
mod Address
mod Schema
mod Hashing
pub mod Laws
unfoldable pub use Address.*
unfoldable pub use Schema.*
unfoldable pub use Hashing.*
