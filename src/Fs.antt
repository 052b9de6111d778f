-- ===== src/Fs.antt =====
-- The file systems of Kernel/CrecentKernel/src/fs.
pub mod CString
pub mod Node
pub mod Tarfs
pub mod Exfat
pub mod Partition
pub mod Vfs
