-- ===== src/Nebula.antt =====
-- nebula_graph: an in-memory property graph, with an index on properties and a query language.
pub mod Primitives
pub mod Storage
pub mod Index
pub mod Query
pub mod Execution
pub mod Cluster
pub mod Traversal
mod Weights
pub mod Paths
mod Tests
