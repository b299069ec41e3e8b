-- ===== src/Query.antt =====
-- query/stream_schema_provider.rs: which data a query reads.
pub mod Listing
pub mod Pruning
pub mod Counts
mod Tests
