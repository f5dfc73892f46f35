-- ===== src/Connector.antt =====
-- The source side of src/connector.rs: Source turns what the readers return into records and
-- rejected records, Hash is the running hash of the bytes read, and Chunks is the second pass that
-- streams the surviving records in chunks.
pub mod Source
pub mod Hash
pub mod Chunks
pub mod FirstPass
