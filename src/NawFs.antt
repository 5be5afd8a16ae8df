-- ===== src/NawFs.antt =====
-- fs/nawfs.c and fs/nawfs_format.h. A parent of:
--   Format    the structures on disk, their bytes, and the tests on them
--   Device    what the file system asks of the disk driver
--   Catalog   the catalog in memory and on disk
--   Files     the operations on files
pub mod Format
pub mod Device
pub mod Catalog
pub mod Files
mod Tests
