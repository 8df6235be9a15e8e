-- ===== src/Validate.antt =====
-- controller/telemetry.go, validateTelemetry: the defaults and checks that come before the objects
-- are built. The function changes the custom resource in place; here each step returns the part
-- that it changes. Errors, ConfigEnvs and the requests to the API server are a state.
pub mod Context
mod Secrets
mod Notifications
mod Projects
mod Access
mod Spec
pub mod Resolved
pub mod Granted
pub mod AiGranted
pub mod Returns
pub mod Validated
pub mod Frame
pub mod Requests
pub mod Asked
pub use Context.*
pub use Secrets.*
pub use Notifications.*
pub use Projects.*
pub use Access.*
unfoldable pub use Spec.*
