-- ===== src/Fs/Vfs/Nodes.antt =====
-- The tree that a store holds, and what a path leads to in it.
mod Tree
mod Same
unfoldable pub use Tree.{resolve}
pub use Tree.*
pub use Same.*
