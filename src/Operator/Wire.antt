-- ===== src/Operator/Wire.antt =====
-- operator/internal/controller/actionsrunner/wire: the connection of a runner to GitHub.
pub mod Context
pub mod Policy
pub mod Line
pub mod Collection
