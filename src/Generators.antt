-- ===== src/Generators.antt =====
-- rustworkx-core/src/generators/: one module for each generator over the loops of `Build`.
pub mod Build
pub mod Path
pub mod Grid
pub mod Rings
pub mod Mesh
pub mod Tree
pub mod Web
mod Tests
