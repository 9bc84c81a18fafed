-- ===== src/Client.antt =====
-- internal/client: the scanning half. The client sends the probes; what it records of each is an
-- attempt, which it merges with what the server recorded.
pub mod Attach
pub mod Integers
pub mod Local
pub mod Merge
pub mod Observe
pub mod Plan
pub mod Remerge
