-- ===== src/Index.antt =====
-- The write path of the index: indexer/apply.rs, with the keys of indexer/cache.rs, the file stems of
-- path_util.rs, `reset_index_state` of indexer.rs and the types of types.rs.
pub mod FileTable
pub mod Symbols
pub mod Store
pub mod Declared
pub mod Others
pub mod Bulk
mod Tests
