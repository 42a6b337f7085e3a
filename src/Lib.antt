-- ===== src/Lib.antt =====
-- DBX is an in-memory database: a sharded key-value store (internal/engine) whose writes go through a
-- write-ahead log (internal/persistence) from which it recovers, with transactions (internal/transaction)
-- on top.
--
-- Base.antt holds what the other modules share: Boolean tests on numbers (Base/Tests), lists measured by
-- native numbers (Base/Lists), 64-bit integers as integers with their wrap-around (Base/Int), byte strings
-- (Base/Octets) and Go's maps as association lists (Base/Maps, Base/IdMaps).
--
-- Util/Hash.antt and Util/Slot.antt are internal/util/hash.go: `murmur32` and `ShardIndex`, `crc16` and
-- `HashSlot`. Util/Decimal.antt is Go's decimal `strconv.ParseInt` and `strconv.FormatInt`.
-- Security/Encryption.antt is internal/security/encryption.go; AES-GCM is a parameter, a record of two
-- functions with their laws.
--
-- Persistence/Wal is internal/persistence/wal.go. Encode is `encodeRecordPlain`, Decode is the part of
-- `scanFrames` behind the payload, Scan the loop itself with `decodeFrames`, `scanRecordsMode` and
-- `repairWALTail`; a reader is the list of the bytes that are left. Crc is the checksum of the package
-- `hash/crc32`, Persistence/Endian the big-endian numbers of `encoding/binary`. The loops run on fuel: each
-- round consumes a byte at least, and there is one round more than there are bytes; the theorems that give
-- a result show that this is enough. RoundTrip, Frame, Recover and Reopen hold the proofs.
--
-- Engine/Kv.antt is internal/engine/kv.go: `KVStore` with its shards, each a map and the heap of deadlines.
-- A method that holds the lock of a shard is one step, and takes the readings of the clock that it makes as
-- arguments. The heap is the list of its items in the order in which `heap.Pop` takes them. Kv/Reaper is
-- `DeleteExpiredLimit`. Kv/Shards shows that the shards together are one map, Kv/Find and Kv/Expiry what
-- the methods do to it, Kv/Reaper/Drain and Kv/Reaper/Sound what the reaper takes, Kv/Reaper/Order that a
-- push keeps the order of the heap. Kv/Glob is `matchGlob`, a loop on fuel with a pattern p and a string s:
-- (|p| + 1) * (|s| + 2) + 1 rounds are enough when no byte of s is a star. Kv/Scan is what goes through all
-- entries: `Keys`, `DBSize`, `Snapshot` and the like. Engine/Entry.antt is `Entry` and the values that it
-- holds.
--
-- Persistence/Recovery is internal/persistence/recovery.go: the records behind the checkpoint are applied
-- to the store, for a server without a vector store.
--
-- Engine/Typed.antt is what `getOrCreate` and `getReadOnly` of the typed stores share: a write is a
-- function on the value at a key, and Engine/Typed/Sound shows that a store acts on the contents of the key
-- as that function does. Engine/Lists, Engine/Hashes, Engine/Sets and Engine/Strings are
-- internal/engine/list.go, hash.go, set.go and string.go, one function for each method; `panicked` is the
-- answer where Go panics.
--
-- Transaction/Mvcc, Transaction/Watch and Transaction/Multi are internal/transaction/mvcc.go, watch.go and
-- multi.go, and Transaction/Locks `LockMulti` of lock_manager.go, as the sequence of the locks that it
-- takes and gives back. Transaction/TwoPhase is the coordinator of 2pc.go; what the calls for the shards
-- return and the order in which they end are parameters. The methods are the functions of the same names; a
-- client's transaction, which Go reaches by a pointer, is the entry of the manager's map.
--
-- Cache/Lru is `LRUCache` of internal/cache/entry.go. The loop of `Set` that makes room runs on fuel; its
-- theorems say when it ends.
--
-- Query is internal/query/executor.go with internal/protocol/command.go and response.go. Query/Command is
-- the command and the registry, Query/Verb the `switch` on its name, Query/Effects `prepareDurableEffects`
-- and `effectsFitQuota`, Query/Reply the frames that a `Writer` writes, Query/Executor the state of
-- `Executor` with `writeWAL`, Query/Dispatch the cases of `Dispatch` on keys and strings, Query/Stores
-- those on hashes, lists and sets, and Query/Execute `Execute` on a node without Raft. The log is the list
-- of the effects of its records; whether the disk takes a record, the cases of `Dispatch` that are not
-- modelled, and the measured memory are parameters. Query/Crash compares what commands do with what a
-- recovery makes of their log: View says what a reader sees of a store, Replayed what recovery does to
-- that, Written, Updated, Removed, Renamed and Paired what the stores do to it, Commands and Refined each
-- command, Logged what one command through `Execute` logs, at any readings of the clock, Executed what that
-- means if the clock does not move during the command, History a run of such commands, Lost and Between
-- where the log falls short. Query/Registered and Query/Admitted say which commands pass the guards of
-- `Execute`. Query/Stores/Reads and Query/Stores/Replica say which commands leave the store alone.
--
-- Protocol/Parser is internal/protocol/parser.go: a reader is the list of the bytes to come, `bytes.Fields`
-- is Parser/Fields, `bufio.Reader.ReadLine` part of `read_line`. Parser/Bounds and Parser/RoundTrip hold
-- the proofs.
--
-- Security/Acl is internal/auth with internal/security/acl_enforcer.go (Acl/Enforcer). Acl/Keys and
-- Acl/Prepared relate the keys that `AffectedKeys` names to the effects of a command, Acl/Untouched says
-- what that means for a user, Acl/Stores the same for hashes, lists and sets, Acl/Gaps what the rules let
-- through.
--
-- Cluster/Ring is internal/cluster/ring.go and Cluster/Membership membership.go with
-- internal/query/router.go. A `*Node` is a number into the heap of the ring; `sort.Slice` is a parameter,
-- of which the proofs use that it permutes. Ring/Sound holds what the loop over the nodes does, Ring/Listed
-- what joining and leaving do, Ring/Reached the rings that come about.
--
-- Workflow/Queue is internal/workflow/queue.go; what `backoff.Next` returns is a parameter. Events/PubSub
-- is internal/events/pubsub.go: a Go channel is its buffer and whether it is closed, and `Publish` reads
-- the subscribers in one step and sends to them in another.
--
-- Examples holds concrete runs.
--
-- Not modelled: locks, goroutines and channels, the files themselves (rotation, fsync), the network, the
-- HTTP API, and the vector index, whose distances are floating-point numbers.
mod Base
pub mod Util
pub mod Workflow
pub mod Security
pub mod Engine
pub mod Events
pub mod Persistence
pub mod Protocol
pub mod Query
pub mod Transaction
pub mod Cache
pub mod Cluster
mod Examples
