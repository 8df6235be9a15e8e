-- ===== src/Builders.antt =====
-- The functions of controller/*.go that build the cluster's objects from a custom resource, and what
-- holds between the objects.
pub mod Labels
pub mod Front
pub mod Stores
pub mod Pod
pub mod ClickhouseS3
pub mod ClickhouseConfig
pub mod KeeperConfig
pub mod Environment
pub mod Server
pub mod Databases
pub mod Metrics
pub mod Agents
pub mod AgentPods
pub mod Config
pub mod Declared
pub mod Ordinals
pub mod Rights
pub mod Claims
pub mod Routing
pub mod Access
pub mod Sets
pub mod Counting
pub mod Ports
pub mod Hosts
pub mod Bounds
