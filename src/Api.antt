-- ===== src/Api.antt =====
-- api/v1: the types of the custom resource. A Go pointer is an Option, a slice a List, an int and an
-- int32 a ℤ; names are respelled, so that APIKeySecret is api_key_secret.
pub mod Common
pub mod Access
pub mod Notifications
pub mod Categories
pub mod Alerting
pub mod Projects
pub mod Agents
pub mod Stores
pub mod Telemetry
