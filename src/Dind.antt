-- ===== src/Dind.antt =====
-- The dind sidecar (dind/): its caches, the allocation of loopback subnets and the docker events.
pub mod Octets
pub mod Types
pub mod Subnets
pub mod Cache
pub mod Events
pub mod Forward
pub mod Wait
pub mod Tests
