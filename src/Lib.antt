-- ===== src/Lib.antt =====
-- RSafeFS: a file system in user space, made of layers that are stacked by a configuration file.
--
-- Each layer is a table of operations (`struct fuse_operations` of libfuse); a caching layer answers
-- an operation from its state or calls the same operation of the layer below. At the bottom stands
-- the local layer, which makes system calls, or the client of a remote server. The entry point,
-- src/rsafefs.cpp, reads the configuration, checks it, and runs the stack as a client or a server.
--
-- Base: shared helpers; `Base.Dict` stands for the hash maps, `Base.Int` for signed integers.
-- Eviction: include/rsafefs/common/cache/*.hpp, and the drivers that forward to them. The record
--   `EvictionPolicy` is what the caches rely on; `Lru.Policy` and `Rnd.Policy` fill it. The random
--   engine is a parameter that draws within the bounds it is given.
-- Fuse: the operations as requests and replies. A layer over a state `S` is a function
--   `Request K → S → Reply × S`; `K` is the type of paths.
-- MetadataCache: lib/layers/metadata_cache/cache.cpp; its child `Layer` the operations of
--   lib/layers/metadata_cache/metadata_cache.cpp; `handle` is the function of the layer for each operation,
--   and the next layer's for the others. The program never calls them by its table, since
--   `init_layer` does not reach it (`Config.Stack`).
-- DataCache: lib/layers/data_cache/cache.cpp: `open_file`, `read`, `release`. The loop of `read` runs
--   on `2 * size + 2` rounds of fuel, which is enough since each round copies a byte or caches a
--   block that the next round uses. `Correct` is about a file that the next layer serves unchanged;
--   `write` is not among the operations of the layer.
-- ReadAhead: lib/layers/read_ahead/read_ahead_cache.cpp.
-- AsyncClient: the upload of buffered writes in lib/fuse_rpc/grpc/async_client.cpp, as a state machine
--   whose steps are the completions of the stream's operations. Its fuel is the number of blocks and
--   five, since each round but four or five sends a block.
--   `AsyncClient.Scheduler` is its threads as labels of steps: the scheduler, the channel
--   (include/rsafefs/fuse_rpc/grpc/channel.hpp), the calls that end, and the writes and flushes;
--   `AsyncClient.Buffer` adds the sizes that `write` counts, and that the call under way takes off
--   block by block, and the thresholds at which it flushes. A flush
--   of the timer is one at any time.
-- Messages: include/rsafefs/fuse_rpc/grpc/structs_fillers.hpp through the widths of
--   protos/fuse_operations.proto. The bit fields of `struct fuse_file_info` are numbers here.
-- Local: lib/layers/local/local_operations.cpp over system calls that are a parameter; its child `Nfs`
--   lib/layers/local/nfs_operations.cpp over the same calls, and `Dir` the directory streams of both. Their
--   loop has as much fuel as there are entries, and one more for the end. `Local.Descriptors.HasTable` says
--   what is relied on of `open`, `dup` and `close`.
-- Rpc: the remote calls. `Rpc.Answers` is the calls of protos/fuse_operations.proto and the stub of gRPC,
--   which is a parameter (`Network`); `Rpc.Client` is lib/fuse_rpc/grpc/sync_client.cpp, with `Session` for
--   the functions of lib/layers/rpc_client/rpc_client.cpp; `Rpc.Server` is lib/fuse_rpc/grpc/server.cpp: what
--   each class of calls does with a request, the streams as state machines, and the pool of objects
--   that the completion queue drives. `Rpc.Transparent.Delivers` says what is relied on between the two: an
--   answer is the server's, and a request that fails was carried out once or not at all. The fuel of
--   a stream is two steps for each request and three, as it reads each request and sends each reply.
-- Config: lib/config.cpp; its child `Stack` the composition: `stack_operation_` of
--   include/rsafefs/utils/utils.hpp and `init_layer` of every layer; `Options` the options of the data cache.
-- Tests: the theorems at concrete inputs.
--
-- Bytes are numbers, a buffer is a list of them, and time is a number of nanoseconds that a clock
-- gives. Offsets are not negative; sizes stay below 2^31 where the program returns them as an `int`.
-- A subtraction of `size_t` wraps around, as `DataCache.sub_size`. Undefined behaviour, such as a
-- dereference of the end of a map, is an outcome of its own.
--
-- Not modelled: interleavings of threads within a call, except in the asynchronous client; the destructor of the
-- asynchronous client; the options of the layers but the data cache; the shutdown of the server; logging.
pub mod Base
pub mod Eviction
pub mod Fuse
pub mod MetadataCache
pub mod DataCache
pub mod Config
pub mod ReadAhead
pub mod Rpc
pub mod AsyncClient
pub mod Messages
pub mod Local
pub mod Tests
