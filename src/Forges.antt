-- ===== src/Forges.antt =====
-- package/*/loader.py: the loaders of the forges.
pub mod Text
pub mod Json
pub mod Person
pub mod Lines
pub mod Deposit
pub mod Host
pub mod Pypi
pub mod Npm
pub mod Debian
pub mod Crates
pub mod Opam
pub mod Archive
pub mod Maven
pub mod Rpm
pub mod Golang
pub mod Pubdev
pub mod Cran
pub mod Samples
