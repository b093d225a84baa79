-- ===== src/Discover.antt =====
-- internal/discover: addresses, and one sweep of the networks they stand in.
pub mod Mac
pub mod Net
pub mod Sweep
pub mod Local
pub mod Icmp
pub mod Table
