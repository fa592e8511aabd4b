-- ===== src/Lib.antt =====
-- A verification library of the block chain indexer.
--
-- The program reads the block files of a coin's daemon, finds the longest chain among the blocks
-- in them, stores what explorers ask for in a LevelDB database, and keeps the unconfirmed
-- transactions in memory. The files, by the part of the program that they model:
--
-- - Types.antt: the structs of src/blockchaintypes.h, field by field.
-- - Stream.antt: std::istream as contents, position and the flags eof and fail. The readers built
--   on it (FileReader.antt for src/filereader.cpp, BlockReader.antt for src/blockreader.cpp,
--   BlockScanner.antt for src/blockscanner.cpp) pass the stream on explicitly, so a short read and
--   what a failed stream leaves in a variable are part of the model. A variable that the code
--   reads before it has set it holds an arbitrary value, a parameter (External.antt,
--   Indeterminate).
-- - Utility.antt: hexadecimal text, Base58 and addresses (src/utility.cpp).
-- - ScriptSolver.antt: script types and the addresses of a script (src/scriptsolver.cpp).
-- - ByteArrayBuffer.antt: the stream buffer of src/byte_array_buffer.cpp and std::istream over it.
--   Code over a stream is there the tree of its calls (ByteArrayBuffer/Client.antt), which can be
--   run on either kind of stream; ByteArrayBuffer/Transaction.antt has readTransaction as such a
--   tree.
-- - MempoolMonitor.antt: the two maps of src/mempoolmonitor.cpp, its queries, the removal of an
--   indexed transaction (transactionIndexed), and a round of startWatcher. The daemon's calls are
--   the record Vertcoind. MempoolMonitor/Known.antt has what the mempool can become, by rounds and
--   removals in any order.
-- - Leveldb.antt: the database as an interface with laws; Leveldb/Table.antt has a table in memory
--   that fulfils them. BlockIndexer.antt: src/blockindexer.cpp over that interface. indexBlock
--   emits a batch of puts and then writes it; a Job is an indexer with the batch so far. The
--   mempool of an indexer is told of each transaction, as the code calls transactionIndexed.
-- - BlockFileWatcher.antt: src/blockfilewatcher.cpp, that is the map of scanned blocks by the hash
--   of the block before (scanBlocks), the longest chain (findLongestChain), and the update of the
--   index (processNextBlock, updateIndex), which joins the scanner, the reader and the indexer.
--   startWatcher is BlockFileWatcher/Watch.antt, a round for each state of the disk.
--   BlockFileWatcher/DoubleSpends.antt and its children have the search for double spends
--   (indexBlocksByHeight, analyzeDoubleBlocks, txToJson, dumpDoubleSpends).
-- - HttpServer.antt: src/httpserver.cpp. The handlers read the database, the mempool and the block
--   files, and give an answer (HttpServer/Daemon.antt, with the daemon's calls as the record
--   Daemon). The file itself has the balance of an address (addressBalance) and the spend of an
--   outpoint; its children have the list of an address's outputs (AddressTxos.antt), a block and
--   lists of blocks (Blocks.antt), the transactions of a block by pages (BlockTransactions.antt),
--   the headers up to a transaction's block (Proof.antt), the full answers for one outpoint and
--   for several (OutpointSpends.antt), what is passed on (Calls.antt), and how far the index has
--   come (Sync.antt, with the arithmetic on floats as a parameter). The JSON parser is a
--   parameter, and its numbers are integers.
-- - MainProgram.antt: main and its two threads (src/main.cpp) as steps that interleave, up to the
--   first use of each object. CoinParams.antt: the coin's parameters from a JSON value
--   (src/coinparams.cpp).
-- - Json.antt: values of the JSON library, as the program builds them.
-- - Base.antt and Dict.antt: shared notation, lists, text, and std::unordered_map as a list of
--   entries; where the code iterates over a map, the order is that of the list. A function that
--   can throw, exit or read outside an object returns a Result (Base/Outcome.antt).
-- - Examples.antt: the theorems at concrete inputs.
--
-- Machine integers wrap where the code's type does; positions and sizes have 64 bits, and sums of
-- `long long` wrap too. Where the height of updateIndex or a counter of blockindexer.cpp, each an
-- `int`, would overflow, the model has a fault. Loops without an evident measure recurse on fuel,
-- and out of fuel is a fault of its own: the scan of a file gets one round more than the file has
-- bytes, each round taking four; the loops over a script get one more than it has bytes; the walk
-- along the chain has its fuel as an argument.
--
-- Not modelled: the routes that run of the HTTP server sets (src/httpserver.cpp), how LevelDB is
-- opened (src/main.cpp), stream classes without a use (src/membuf.h), the RPC client
-- (src/vertcoinrpc.h), the pauses of the watchers, messages on the console, failing allocations,
-- and the copies of other projects' code (src/json.hpp, src/cxxopts.hpp, src/crypto), whose
-- functions are parameters (External.antt).
pub mod CoinParams
pub mod MainProgram
pub mod ByteArrayBuffer
pub mod Base
pub mod Types
pub mod Stream
pub mod FileReader
pub mod External
pub mod Utility
pub mod ScriptSolver
pub mod BlockReader
pub mod BlockScanner
pub mod Dict
pub mod Leveldb
pub mod MempoolMonitor
pub mod BlockIndexer
pub mod Json
pub mod BlockFileWatcher
pub mod HttpServer
pub mod Examples
