-- ===== src/Protocol.antt =====
-- airdcpp/protocol/AdcCommand.h and AdcCommand.cpp.
pub mod Command
pub mod Escape
pub mod Parse
pub mod Print
pub mod Params
pub mod Rejects
pub mod RoundTrip
pub mod Tests
