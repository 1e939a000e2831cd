-- ===== src/Setup.antt =====
-- What the programs check and open before they work: addresses, directories, the database directory,
-- and the configuration of the server.
pub mod Regex
pub mod Address
pub mod Dirs
pub mod Database
pub mod Config
pub mod ConfigLaws
pub mod Examples
pub mod Server
pub mod Starts
