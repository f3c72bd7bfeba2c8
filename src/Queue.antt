-- ===== src/Queue.antt =====
-- The download queue, airdcpp/queue/, and the file segments of airdcpp/core/classes/Segment.h.
pub mod Segment
pub mod Finished
pub mod Item
pub mod Next
pub mod Parts
pub mod Sources
pub mod Recheck
pub mod Downloads
pub mod Tests
