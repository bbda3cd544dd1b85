-- ===== src/Lib.antt =====
-- Verification of pyroduct: the packet format, its buffers and errors, the two write-ahead logs, the types
-- and values of rows, the data manager of a pipeline, and its sessions.
--
-- Parts and files. Every path is from the repository's root.
--   Header   lib/pyroduct/src/format/header.rs: the 16-byte header in front of every packet as a list of
--            bytes; readers, writers, entry checks (`PyroParser`), and the status byte (`DataStatus`).
--   Buffer   lib/pyroduct/src/format/vec_buf.rs, `PyroVec`: allocation, growth, appends, clones. What lies
--            in an allocation is a function from positions to bytes; a panic is `none`.
--   Captured lib/pyroduct/src/captured.rs: the record that an error carries.
--   Errors   lib/pyroduct/src/error.rs, error/encoding.rs, and `parse_as_error` of format/header.rs: an
--            error as a value, as a packet, and as its receiver reads it. A packet is its status byte and
--            its payload here. serde_json and the process's identity are the parameter `Env`.
--   LogWal   lib/pyroduct/src/format/log_wal.rs: log entries in numbered segment files with index files.
--            `Files` is the directory, `Writer` and `Reader` the code, `Holds` the invariant that ties the
--            files to the lists of payloads. serde_json is the parameter `Serde`.
--   Wal      lib/pyroduct/src/format/wal.rs, with `PyroRef` and `get_ref` of format/vec_buf.rs: packets in
--            a `.pyrowal` file, the frame iterator and recovery.
--   Spec     lib/pyro-spec/src/lib.rs: the primitive types, the compound types with their fields, and the
--            coercion of two types to a common one. The map of merged fields is a sorted list of fields.
--   Value    lib/pyroduct/src/format/value/value.rs, repair.rs, coerce.rs and schema.rs: values and rows,
--            `repair`, which makes a value fit a type, `Coerce`, which turns Rust's own values into values of
--            a type, and the inference of types from values. An integer is an element of the integers, its type's range a Boolean test; a float
--            is its bits. What Rust's standard library parses, prints and casts is the parameter `Std`,
--            and `Documented` says what is relied on of it.
--   Session  lib/pyroduct/src/pipeline/session_diff.rs and the status table of pipeline/session.rs: the active
--            sessions, their order of use and eviction, preparation, steps, closing, the rolled-up
--            row and its reading back, and the ids of new sessions. The module behind the shards, and
--            whether a file or the output takes a record, are the parameter `Env`.
--   Data     lib/pyroduct/src/pipeline/data.rs, `DataManager`, with `WalManager` of
--            lib/pyroduct/src/format/value/arrow/wal.rs and `PreBatch` of arrow/record_batch.rs beside it: rows
--            pushed to the active WAL (`Writing`), flushed to IPC files, rolled out to Parquet files with
--            deletions that readers put off (`Rollout`), counted, looked up and sliced (`Reading`). `Valid` is
--            the invariant, and `all_rows` the abstract view: the rows that are kept, in their order. A record
--            batch is the list of the rows that it was built from, and a path the number in its name. The
--            columns of Arrow are not modelled: what a row becomes on its way through them is the function
--            `arrow_row`, applied where a row is read from a file. It, what can fail outside, whether batches
--            can be concatenated under the schema as it is, the clock and how a Parquet file is cut into
--            batches are the parameter `Env`.
--   Base     what the parts share: lists, bytes, Boolean tests, results, texts, integers, maps from numbers
--            (`Maps`), and the monad of a state and errors (`Exec`).
-- A packet is a header and a payload: `Buffer` and `Wal` use the readers and writers of `Header`, `Wal` its
-- entry checks too, and `Errors` its status codes. `Value` repairs values to the types of `Spec`, and
-- the rows that `Session` keeps and rolls up are those of `Value`. `Data` repairs each row that is pushed
-- with `project_repair` of `Value`.
--
-- Numbers. Lengths, offsets and indices are natural numbers; where the code cuts to `u32` or adds with a
-- check the model does. A theorem that needs a length below 2 ^ 32 or 2 ^ 64 says so.
--
-- Fuel. `count_records` and `scan` run once for each byte of a file at most, since a record takes eight
-- bytes or more; `frames` likewise, since a frame takes 32. `next_loop` is on fuel that its caller gives.
-- `coerce_at` is on fuel: `coerce_pyro_types` gives it one more than the depth of the deeper type, since
-- its calls go to the parts of both types. `evict_loop` is by recursion on the order of use,
-- which each of its turns shortens.
--
-- Not modelled: failures of the file system other than those that `Env` names, flushing and what a crash
-- keeps of unflushed data (`Wal.Torn` takes files cut at any point of their last record), background
-- tasks (`LogManager`, `WalManager`), reference counts, raw pointers, memory mapping. Sessions: calls
-- run one after another, and neither their interleaving between two locks, nor logs, callbacks and
-- the records that calls return are modelled, nor a database that fails. The data manager: its restoration
-- from a directory, the SQL provider, the files of the WAL behind the buffer, a database that fails and
-- a file that cannot be deleted; an operation runs to its end under the lock of the state. Values: `ToRow`, which
-- a macro writes for each type, the conversions of get_value.rs and deep_ref.rs, the loop of `infer_schema` over rows, the printing of types,
-- arrow, rkyv and JSON. The other pipelines, transport, WASM, the daemon, artifacts,
-- the command line, macros and the GUI.
pub mod Base
pub mod Header
pub mod Buffer
pub mod Captured
pub mod LogWal
pub mod Spec
pub mod Wal
pub mod Errors
pub mod Value
pub mod Session
pub mod Data
