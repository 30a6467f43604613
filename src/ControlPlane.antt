-- ===== src/ControlPlane.antt =====
-- B/control_plane: the configuration of the graph that runs follow, and the stores that keep it.
pub mod Agents
pub mod Examples
pub mod Graph
pub mod Postgres
pub mod Registry
pub mod Shadow
pub mod Tables
pub mod Validator
