-- ===== src/Storage.antt =====
-- The package storage: the disk-backed engine.
pub mod Bytes
pub mod RowId
pub mod RowCodec
pub mod Page
pub mod Mvcc
pub mod BufferPool
pub mod HeapFile
pub mod Table
pub mod Scan
pub mod Catalog
