-- ===== src/Bundle.antt =====
-- Bundle: queue/Bundle.cpp, the files of a bundle and the users they can be downloaded from, and
-- queue/UserQueue.cpp, which keeps the bundles of each user.
pub mod Types
pub mod Files
pub mod Users
pub mod UserQueue
mod Tests
