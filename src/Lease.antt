-- ===== src/Lease.antt =====
-- internal/lease: the leases, and what they share.
pub mod Core
pub mod Interface
pub mod SingleOwner
pub mod PermitSet
pub mod ReadWrite
