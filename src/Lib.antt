-- ===== src/Lib.antt =====
-- MirDB, a persistent key-value store that speaks the memcached text protocol.
--
-- The parts and how they interact. A connection's read buffer is cut into requests by the codec
-- (mirdb-server/src/proto.rs) with the parser (parser.rs) over a library of combinators
-- (parser_util/macros.rs). The service (main.rs) passes each request to the store (store.rs), which
-- reads and changes the data manager (data_manager.rs) and answers with a response (response.rs), whose
-- bytes the codec writes back. The data manager keeps a log, tables in memory and levels of table files.
--
-- Files and sources, the sources below mirdb-server/src unless they begin with sstable/ or
-- skip-list/:
--   ParserUtil, ParserUtil/*   parser_util/macros.rs: one function per macro and parser
--   Request, Parser, Parser/*  request.rs and parser.rs
--   Proto, Proto/*             proto.rs: `decode`
--   Response                   response.rs: `Response::write`
--   Error                      error.rs, and the status codes of sstable/src/error.rs
--   Payload, Store, Store/*    store.rs: `apply`; main.rs: `Server::call`
--   DataManager, DataManager/* data_manager.rs: insert, get, remove, minor compaction; Service joins
--                              it with the store, Steady is about its panics
--   Memtable                   memtable.rs and memtable_list.rs
--   SkipList, SkipList/*       skip-list/src: nodes behind pointers in a heap; AsMap joins the list with
--                              the tables in memory
--   Levels, Levels/*           sstable_reader.rs: `search_readers` and `get`; Inputs is about the choice of
--                              inputs in `size_compaction` of data_manager.rs
--   Merger, Merger/*           merger.rs
--   Manifest, Manifest/*       manifest.rs, and `make_file_name` of utils.rs
--   Wal, Wal/*                 wal.rs: the segments as bytes, `append` and the iterator
--   Sstable/Separator          sstable/src/util.rs: the keys of index entries
--   Sstable/Masked             sstable/src/util.rs: the masks of checksums
--   Sstable/Codec              sstable/src/options.rs, and the libraries that sstable/src uses
--   Sstable/Builder            sstable/src/block_builder.rs: `add`, and the bytes of a block
--   Sstable/BlockIter          sstable/src/block_iter.rs, and the defaults of types.rs
--   Sstable/Block              sstable/src/block_builder.rs: `flush`; block.rs and reader.rs
--   Sstable/Handle             sstable/src/block_handle.rs and footer.rs
--   Prelude, Prelude/*         lists, numbers and bytes, about no source
--
-- State is passed explicitly: an action takes the state and returns the new state with a result, which
-- is a value, an error or a panic of the thread. A byte is a number, a slice of bytes a list of them.
--
-- Loops. `split!` runs on fuel: twice the length of the input and two rounds more, enough since
-- every second round takes a byte. A numeral is written with fuel for 20 digits, all that a 64-bit
-- number has. The binary search runs on as many rounds as there are readers, and each makes the
-- interval shorter; the iterator of a segment on one more than the file has bytes, and each item
-- takes some. A walk in the skip list and its iterator have one round more than the list has
-- entries, and each goes on to a later entry; the iterator of a block has as many rounds as its
-- caller gives, of which one for each entry and one more are enough. The other loops are structural.
--
-- A pointer of the skip list is a number, the heap a function from numbers to nodes; what Rust
-- leaves undefined is `none`, and so is a panic in the table files. A new node takes the first
-- number that has not been given out. The generator of heights is modelled over the coins that it
-- throws; the theorems hold for every height up to the maximum. Whether a value may be left
-- uninitialised, as `remove` leaves one before it frees the node, is an argument of `remove`.
--
-- Not modelled: the texts inside `IRResult::Err`, which the decoder drops; the conversions between
-- error types; tokio, sockets and locks. The clock is an argument, read once per request. The data
-- manager is for the store the interface `DataOps` with the laws of Store/Data.antt, which
-- DataManager/Service.antt fills; its recovery is not modelled, of its major compaction only the
-- choice and the merge of the inputs, nor threads that run between two parts of one operation. The
-- skip list is for the tables in memory the interface `MapOps`, which SkipList/AsMap.antt fills. A
-- table file is for the levels the interface `ReaderOps` with the laws of Levels/Lookup.antt; what
-- the file that is built of a table in memory keeps is a law of DataManager/Moved.antt, which leaves
-- out empty keys, which no iterator shows, and keys that are another one with a zero byte behind it;
-- its blocks and its footer are modelled, the file as a whole and its iterator are not, for which
-- the merger has the interface `IterOps`, nor are the configuration and the thread pool. How numbers
-- are written in file names is the interface `NameOps`. The compression, the checksums and the
-- integers of the log and the blocks come from libraries and are the interfaces `WalOps` and
-- `CodecOps`.
pub mod Prelude
pub mod ParserUtil
pub mod Request
pub mod Parser
pub mod Proto
pub mod Error
pub mod Response
pub mod Payload
pub mod SkipList
pub mod Store
pub mod Sstable
pub mod Levels
pub mod Wal
pub mod Memtable
pub mod Merger
pub mod Manifest
pub mod DataManager
