-- ===== src/Lib.antt =====
-- FluxDB is a transactional key-value store over a B+Tree, in Rust. This library models the parts
-- of it that keep its promises: which version a transaction sees, which frame of memory a page may
-- take, and what the bytes of a page mean.
--
-- The parts of the program, from the bottom: a disk manager reads and writes pages of 4096 bytes
-- (crates/storage/src/disk.rs); the page modules (crates/storage/src/page) lay data out in them;
-- the buffer pool (crates/storage/src/buffer_pool) keeps pages in frames, in shards with a mutex
-- each; the log (crates/storage/src/wal.rs) makes changes durable before pages are; the index
-- (crates/storage/src/index) is a B+Tree over pages whose leaves hold versions; the transaction
-- manager (crates/db-core/src) numbers transactions, gives out snapshots and keeps the commit log;
-- the engine (crates/engine/src) puts them together.
--
-- Files:
--   Common, Common/Lists, Common/Collect, Common/Maps, Common/Tests: lists, the Boolean tests, and maps as
--     association lists, in which a key is looked up from the front.
--   Mvcc/State, Mvcc/Manager: TransactionManager of crates/db-core/src/transaction_manager.rs, the
--     state and each method under the method's name.
--   Mvcc/Visibility, Mvcc/Handle: Snapshot, is_vacuumable and Transaction of
--     crates/db-core/src/transaction.rs.
--   Mvcc/Invariant, Mvcc/Steps: the manager's invariant, and its methods as steps of a relation,
--     so that Reach holds of the states that any interleaving of threads leads to.
--   Mvcc/Horizon, Mvcc/Persist, Mvcc/Begin, Mvcc/Vacuum, Mvcc/Reads, Mvcc/Outcome: the proofs
--     about the vacuum horizon, about what lasts while a transaction runs, and about outcomes.
--   BufferPool/Errors: BufferPoolError of crates/common/src/error.rs.
--   BufferPool/Replacer, BufferPool/Victim: ClockReplacer of
--     crates/storage/src/buffer_pool/replacer.rs, and its sweep.
--   BufferPool/Shard and its child Writes: ShardInner and the lock sections of the methods of BufferPoolShard,
--     crates/storage/src/buffer_pool/shard.rs. A method that gives its lock away is several
--     functions: flush_page_inner is flush_start and flush_finish, a round of the loop of
--     acquire_frame is try_acquire, a round of the loop of delete_page is try_delete and, after
--     the write, delete_written.
--   BufferPool/Shard/Invariant, Pins, Choose, Publish, Acquire, Loads, Flush, Marks, Redo: the
--     shard's invariant, and what each section does to it.
--   BufferPool/Write: write_frame_to_disk of the same file, as the requests that it makes of the
--     log and of the disk, in their order.
--   BufferPool/Manager: the page ids and the least LSN of BufferPoolManager,
--     crates/storage/src/buffer_pool/manager.rs. new_page gives its locks away between its sections:
--     pop_free, fresh_id, claim_recycled and repark. BufferPool/Alloc has the threads that take them and
--     those that give ids back, as steps, with the bitmap page; Clears and Apart prove what a claim leaves of the bitmap, and the
--     invariant of the ids.
--   Engine/Txn: Engine::commit and Engine::abort of crates/engine/src/txn.rs, over Mvcc/Manager.
--   Page/Bytes, Page/Header, Page/Slices, Page/Frames: the fields, type markers, flags, LSN and checksum of
--     crates/storage/src/page/mod.rs; Page/Flags and Page/Checksum prove their laws.
--   Page/FreeSpace (with Scan and Bitmap), Page/Meta, Page/Overflow (with Laws): free_space.rs,
--     meta.rs and overflow.rs of crates/storage/src/page.
--   Values/Varint, Value, Scalars, Options, Vecs: the encodings of crates/common/src/types.rs; the
--     trait Value is a record of its functions, and IsValue what they owe. Values/Keys (with Laws)
--     is the trait Key in the same way. Values/Texts and Values/Names: texts, characters and
--     TypeName. A decoder that panics gives none.
--   Page/Leaf: the layout and LeafPageAccessor of crates/storage/src/page/leaf.rs; Page/Leaf/Mutate,
--     Build, Compact, Search and Typed: the mutator, the builder, compact, position and the methods
--     that encode. Page/Leaf/Valid says which pages are leaves and which list of records a leaf
--     stands for; Records, Counts and Agree say what single writes leave and store; Insert,
--     Remove, Stamp, Build/Push, Build/Start and the children of Compact and of Records prove the operations
--     against the list. Page/Leaf/Packing is about stretches that do not overlap.
--   Page/Internal and its child Mutate: the layout and accessor, and the mutator and builder, of
--     crates/storage/src/page/internal.rs.
--     Sections and Rewrite prove that rewrite stores children and keys, Edits the changes of one key,
--     Search and Routes find_child, and Reroute what an inserted separator does to it.
--   Wal/Error, Wal/Ring: WalError of crates/common/src/error.rs, and WalBuffer of
--     crates/storage/src/wal.rs; Ring/Content says which queue of records a ring holds; Queue, CopyOut, Drain
--     and Refine prove its operations against that queue.
--   Wal/Record, Wal/State: the bytes of a record, append, and the sections of flush_up_to under the
--     lock: flush_round is a round of its loop, up to where a leader gives the lock away with its
--     Flight, and finish_flush is the leader with the lock again. State/Steps interleaves them;
--     Durable is the invariant, Appends, Rounds, Keeps and Promise what follows. Wal/Reader is
--     next_record of WalIterator on the bytes left of a segment, and Wal/Checkpoint the payload that
--     log_checkpoint writes and CheckpointData::from_bytes reads. Wal/Payloads is the other log_
--     operations.
--   Recovery/Apply: apply_data and redo_record of crates/storage/src/recovery/mod.rs; Recovery/Passes
--     and Scan: the first pass of RecoveryManager::recover, and the second with its end. Fields, Logs and
--     Replays relate the redo to the logged operations; Sizes, Gate, Follows, Mixed, Advance, Restart and
--     Rerun are about the LSN gate and a second
--     recovery; Outcomes, Collects, Settle, Succeeds and Victims about the commit log and the counters.
--   Page/Tables: a law of bytes, tried on every byte.
--   The modules called Tests hold the runs at concrete inputs.
--
-- How the code is read: a mutex section is one step. A hash map is an association list, and what
-- is proved of it does not depend on the order. Numbers are natural numbers. The transaction
-- manager's counters wrap at 64 bits, and the theorems' conditions keep them from it; pin counts
-- and page ids are counted without a bound. What a field of a page cuts off is written out. An
-- index out of bounds is a panic in the source; in the model it reads a default and writes
-- nothing, except where a decoder gives none, and the invariants and the theorems' conditions rule
-- it out. The clock of oldest_active_txn_age is a number of ticks.
--
-- Recovery works on the bytes of every page, and ensure_page gives a page's bytes; the log is the list of the
-- records, or errors, that an iterator gives, and both passes read the same list. A set of ids is a list
-- without an id twice.
--
-- Bounds: a search of a leaf or of an internal page takes at most sixteen rounds, which is enough for a count of 16 bits.
-- The sweep of the clock takes twice the number of frames as its rounds, as the source
-- does; that this is enough is a theorem. The scan of a byte takes eight rounds, one for each bit.
-- A number is encoded in at most ten rounds of seven bits, which its round trip shows to be enough
-- for 64 bits.
--
-- Parameters: the CRC32 of the crate crc32fast, of which only a range of 32 bits is assumed, and
-- the answers of the log and of the disk; combining two checksums is read as the checksum of both
-- parts. Whether the leader of a flush could write and sync its records is an input.
--
-- Not modelled: the waiting side of wait_until_settled and of load_done; the loops of the shard's
-- methods around their sections, and the guards; the fetches of the buffer pool manager; chains of
-- overflow pages; of the log, its segments, the walk over them, their scan at opening, and the waiting of a
-- follower; of recovery, errors of the pool, the deletion of pages in the pool and the flush at the
-- end; the index; the encodings of signed integers, floats and arrays; the rest of the engine;
-- files; the command line.
pub mod BufferPool
pub mod Common
pub mod Engine
pub mod Mvcc
pub mod Page
pub mod Recovery
pub mod Values
pub mod Wal
