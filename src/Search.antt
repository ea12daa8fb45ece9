-- ===== src/Search.antt =====
-- app/retrieval/search.py and app/retrieval/relevance.py: the search of the index.
pub mod Cache
mod Recent
pub mod Embedding
pub mod Index
mod Isolated
mod Selection
mod Kept
pub mod Relevance
mod Entries
mod Coherent
mod Tests
