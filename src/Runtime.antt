-- ===== src/Runtime.antt =====
-- internal/config: the configuration at run time, its synchronisation with the database, and its
-- verification.
pub mod Maps
pub mod Tables
pub mod Apply
pub mod Faulty
pub mod Merge
pub mod Refine
pub mod Elements
pub mod State
pub mod Validated
pub mod Pending
pub mod Fetched
pub mod Synchronised
pub mod Addresses
pub mod Failing
pub mod Lost
pub mod Overdeleted
pub mod Credentials
pub mod Verify
pub mod Consistent
