-- ===== src/Validator.antt =====
-- The validator of template files: src/template/validator.rs, with every protocol feature enabled.
-- `bail!` with its message is an error value that keeps the names in the message.
mod Error
pub mod Scan
pub mod Strings
pub mod Parts
pub mod Protocols
pub mod Commands
pub mod Files
pub mod Secrets
pub mod Accepted
pub mod Args
pub mod Sandbox
mod Tests
pub use Error.{ValidationError}
