-- ===== src/Client.antt =====
-- The command line client: src/client.rs and the files of src/client.
pub mod Frame
pub mod Response
pub mod Stream
pub mod RoundTrip
pub mod Sent
pub mod Error
pub mod Dotenv
pub mod Tiers
pub mod Precedence
pub mod Arguments
pub mod Seal
pub mod Commands
