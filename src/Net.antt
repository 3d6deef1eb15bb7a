-- ===== src/Net.antt =====
-- The folder net.
pub mod Session
pub mod Messenger
pub mod Strings
pub mod Params
pub mod Url
pub mod Request
pub mod Call
