-- ===== src/LogWal.antt =====
-- lib/pyroduct/src/format/log_wal.rs: the write-ahead log of log entries, in numbered segment files.
-- `Files` is the directory, `Crc` the checksum, `Index` the index files, `Writer` and `Reader` the two
-- sides of the log; the other modules prove what they promise.
pub mod Files
pub mod Crc
pub mod Index
pub mod Writer
pub mod Reader
pub mod Frames
pub mod Lookup
pub mod Holds
pub mod Append
pub mod Access
pub mod Batch
pub mod Purge
mod Tests
