-- ===== src/Contracts.antt =====
-- app/schemas/contracts.py: the data model that the components exchange, and the exceptions.
mod Types
pub mod Graph
pub use Types.*
