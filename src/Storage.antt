-- ===== src/Storage.antt =====
-- The storage engine, src/storage.
pub mod PageId
pub mod PageHeader
pub mod Page
pub mod Lru
pub mod Schema
pub mod RowSerializer
pub mod BufferPool
pub mod Catalog
pub mod CatalogMeta
pub mod RowStore
pub mod TableIterator
