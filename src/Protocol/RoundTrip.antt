-- ===== src/Protocol/RoundTrip.antt =====
-- What `AdcCommand::toString` writes, `AdcCommand::parse` reads back.
pub mod Words
pub mod Header
pub mod Line
pub mod Adc
pub mod Nmdc
