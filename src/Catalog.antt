-- ===== src/Catalog.antt =====
-- catalog/: the snapshot of a stream, its manifests and the statistics of their files.
pub mod Snapshot
mod Tests
mod Uploads
pub mod Column
pub mod Statistics
pub mod Manifest
pub mod Update
