-- ===== src/Runtime.antt =====
-- What the code takes from the crates tokio, dashmap, bebop and native_db, as interfaces: operations,
-- and laws that the crates document. The model is stated over any values of these; Lists, Bytes and
-- Rows have concrete ones.
pub mod Channel
pub mod Table
pub mod Codec
pub mod Database
pub mod Lists
pub mod Bytes
pub mod Rows
