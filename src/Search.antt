-- ===== src/Search.antt =====
-- airdcpp/search/: the searches and their queue.
pub mod Types
pub mod Queue
pub mod Query
mod Tests
