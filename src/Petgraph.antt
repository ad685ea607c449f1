-- ===== src/Petgraph.antt =====
-- The graph types of petgraph, as interfaces: the operations that rustworkx calls, with the
-- behaviour that petgraph documents for them.
pub mod Create
pub mod Walks
pub mod Stable
pub mod Paths
pub mod Finite
pub mod View
