-- ===== src/Builder.antt =====
-- src/helpers/builder.rs: the builders of the options.
pub mod Latest
pub mod Client
pub mod Server
