-- ===== src/Connection.antt =====
-- Connection: connection/ConnectionManager and the states of connection/UserConnection.h. Strings
-- that are only compared (tokens, hub addresses) and users are numbers, zero the empty string.
pub mod Types
pub mod Tokens
pub mod Item
pub mod Manager
pub mod Mcn
pub mod Attempts
pub mod Join
pub mod Handshake
mod Tests
