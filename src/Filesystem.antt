-- ===== src/Filesystem.antt =====
-- kernel/src/filesystem: the virtual file system, its paths, and the USTAR archive that holds the
-- initial RAM disk.
pub mod Errors
pub mod Node
pub mod Ustar
pub mod Vfs
pub mod Paths
