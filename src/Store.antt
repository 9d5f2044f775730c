-- ===== src/Store.antt =====
-- The database of internal/models/db.go, with the schema of internal/migrations/files. A statement
-- acts on the tables; before it, other clients may have changed them, and it may fail, as the next
-- turn of the environment says.
pub mod Rows
pub mod Jobs
pub mod Keys
pub mod Events
pub mod Listing
pub mod Lookup
pub mod Update
pub mod Roundtrip
pub mod Active
pub mod Expiry
pub mod Hashes
pub mod Invariant
pub mod Runnable
pub mod Insert
pub mod Order
pub mod Paging
pub mod Pages
pub mod Slot
pub mod Sound
pub mod Lock
