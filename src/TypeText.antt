-- ===== src/TypeText.antt =====
-- The text of types: str_ext.rs, detail_text.rs, and the bracket scans of
-- indexer/infer/type_subst.rs.
mod Tests
pub mod Names
pub mod Args
pub mod Detail
pub mod Prefix
