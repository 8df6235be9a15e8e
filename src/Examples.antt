-- ===== src/Examples.antt =====
-- Concrete runs of the operator's functions, each an instance of a theorem of the other modules.
mod World
mod Validation
mod Cluster
mod Registry
mod Updates
mod Pods
mod Runs
mod Loop
