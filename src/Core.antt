-- ===== src/Core.antt =====
-- core/: the loaders of swh.loader.core, and the NAR format.
pub mod Base
pub mod Nar
pub mod Node
pub mod Utils
