-- ===== src/Operator/Api.antt =====
-- The objects that the controllers read and write: the custom resources of operator/api/v1alpha1,
-- and of the Kubernetes types the fields that the code reads or sets.
pub mod Meta
pub mod Core
pub mod Runner
