-- ===== src/Search/Query.antt =====
-- search/SearchQuery: the patterns, limits and types that an item of a share is matched against, with
-- the positions of the last match and those of the directories above.
pub mod Types
pub mod Recursion
pub mod Extensions
pub mod Ruled
pub mod Matching
pub mod Params
pub mod Places
pub mod Covered
pub mod Matches
pub mod Above
pub mod Path
mod Tests
