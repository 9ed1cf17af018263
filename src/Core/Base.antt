-- ===== src/Core/Base.antt =====
-- core/loader.py: BaseLoader. The methods that a subclass overrides are fields of `Methods`; what
-- they keep (the attributes of the subclass, temporary files, the remote) is the world `W`.
pub mod Init
pub mod Metadata
pub mod Load
