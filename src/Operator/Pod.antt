-- ===== src/Operator/Pod.antt =====
-- What the operator builds for a job: the pod and the volume claim of
-- operator/internal/controller/actionsrunner/util/converters.go.
pub mod Filters
pub mod Volumes
pub mod Scheduling
pub mod Build
