-- ===== src/Lib.antt =====
-- KyrinBox: a distributed file store. Masters elect a leader, which takes uploads and has them
-- confirmed by the other masters in two phases; chunk servers hold the files and gossip about who
-- is alive; slave nodes copy the masters' operation log and answer downloads; a key centre holds
-- the public keys that requests are signed for. The code is C++ under src/; the paths below are
-- from the repository's root, those in the other files from src/.
--
-- The parts and their files
-- - Common/OplogId: src/common/kyrin_lexicographically_helper.h, the ids of the operation log.
-- - Common/Base64, Common/Hex: src/common/crypto/kyrin_base64.cc and kyrin_hex.h, the loops by clauses
--   that carry the bytes of a group (`char_array_3`, `char_array_4`).
-- - Common/LruCache: src/common/kyrin_lru_cache.h. A list iterator is the identity of a node; an
--   iterator to a node that is gone makes the operation undefined, `none`. Spec has the abstract
--   list by recency that `get` and `set` refine.
-- - Common/Decimal: the uses of sprintf and sscanf with unsigned numbers.
-- - Common/Cluster, Common/Configs: src/common/kyrin_cluster.cc, kyrin_cluster.h, kyrin_constants.cc and
--   src/common/configs/, the configuration files, their keys, and where the servers are.
-- - Io/HttpClient, Io/Database, Io/Retry, Io/Codec: src/io/ over libcurl and leveldb, the loop that
--   repeats a request, and the codecs of the messages of src/protobuf/.
-- - Server: src/server/base/ (Base), src/common/crypto/kyrin_rsa.cc and src/common/kyrin_rsa_helper.cc (Rsa),
--   src/server/request_filters/ (Identity), the sockets and threads of kyrin_base_server.cc (Setup) and
--   how each server opens and serves them and each program starts (Start), the two handlers of the
--   key centre (KeyCenter), and src/server/slavenode/ with the download handler (Slavenode).
-- - Chunk: src/server/chunk/kyrin_chunk_gossiper_status.cc and .h (Status), kyrin_chunk_gossiper.cc and
--   kyrin_chunk_gossiper_server.cc (Gossip), the handlers of files (Files) and kyrin_chunk_server.cc
--   (Server).
-- - Master: src/server/master/kyrin_master_sentinel.cc and kyrin_master_sentinel_server.cc (Sentinel),
--   with the thread's loop as a step relation (Sentinel/Machine), all the masters' threads
--   (Sentinel/Network) and the locks (Sentinel/Locks, src/common/kyrin_lock.h),
--   kyrin_master_server.cc (Server), and the handlers of src/server/request_handlers/
--   {get_oplog,confirm_oplog,upload_file}_request_handler.cc (GetOplog, ConfirmOplog, UploadFile).
--   Client is the C++ client of the confirmations, src/sdk/cpp_client/.
--
-- How they interact: a server's dispatch (Chunk.Server, Master.Server) passes a request through the
-- filter (Server.Identity), which reads the digest (Server.Base) and asks the key centre by
-- Io.HttpClient behind the cache (Common.LruCache), to a handler. The upload's handler asks a chunk
-- server for its status (Chunk.Status), draws three servers, takes the next id (Common.OplogId) and
-- runs the two phases, which Master.ConfirmOplog answers. The election (Master.Sentinel) decides
-- which master does this.
--
-- State and effects. A component's fields are a record, each method a function on it; a handler
-- gives the reply and the state behind it. What comes from outside is an argument: the answers
-- of libcurl (Curl), the values of rand() and time(), the vote requests that come in before an
-- answer (Poll). leveldb, redis, OpenSSL, the file system, the calls on sockets, libevent's
-- HTTP servers and the protobuf codecs are parameters; where a theorem relies on them, it says so
-- by Reliable, IsWorking, IsRedis, IsPair, RoundTrips, ReadsPages, IsFileSystem, IsOs or IsLibEvent;
-- what one server hears from another is tied to what the other has by AsksMasters, Reaches and
-- IsHonest. Undefined behaviour (an index or iterator out of range, a line for a host that is too
-- long) is a result of its own, except for an URL that does not fit its 1024 bytes.
--
-- Bounds. Bytes are numbers below 256; the epoch is a number below 2 ^ 64 with its wrap-around
-- written out. The 20 digits of Common.Decimal are enough below 2 ^ 64, and 1024 and 30 are the
-- buffers of the code. The loops that need not end (the rounds of an election, the catching up, the
-- drawing of three servers) run as far as the given answers and numbers; a result says that they
-- are still running, and the endless wait of the upload in an election is the result spinning.
--
-- The threads of the sentinel. Its locks guard single fields or pairs of fields; Sentinel/Machine
-- takes a vote request, the answer of one master and what is done with the ballots for one step
-- each, Sentinel/Network runs such a thread for every master, and Sentinel/Locks takes the single
-- locks and unlocks for the steps, of any number of threads.
--
-- The threads of the gossip. The hellos of other servers come in between the calls of a round on the
-- status: while a server is asked, and before its answer is compared. The draws of a round, and the
-- comparison and the adoption of an answer, are one step each, though they hold no lock.
--
-- Not modelled: an URL that is too long, waiting for threads and freeing what they used, logging, the
-- generated protobuf classes, the Python SDK, tests and scripts.
pub mod Prelude
pub mod Common
pub mod Io
pub mod Server
pub mod Chunk
pub mod Master
