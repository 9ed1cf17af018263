-- ===== src/Core/Node.antt =====
-- core/loader.py: NodeLoader and its subclasses ContentLoader, BaseDirectoryLoader and
-- TarballDirectoryLoader. A generator is run with the body of the loop that consumes it.
pub mod Init
pub mod Fetch
pub mod Store
pub mod Load
pub mod Samples
