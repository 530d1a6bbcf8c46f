-- ===== src/Consultation.antt =====
-- src/consultation.ts: the class Consultation. `Exec` is the effect of a method (the database, and
-- the Error that it throws); Opening, Resolution, Sweeps and Queries hold the methods; the other
-- modules hold what is proved of them.
pub mod Exec
pub mod Resolution
pub mod Opening
pub mod Sweeps
pub mod Queries
pub mod Rounds
pub mod Quorum
pub mod Timeouts
pub mod Stale
pub mod Departure
