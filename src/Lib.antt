-- ===== src/Lib.antt =====
-- The TypeScript client of FerricStore, a key-value store with durable flows: the parts of src/
-- that carry its native protocol and its routing.
--
-- A socket hands its chunks to the receive buffer, which cuts them into response frames with the
-- frame decoder; the frames go to the chunk assembler, which joins responses that come in several
-- frames. Bodies are decoded with the value codec, which encodes the requests too. Requests take
-- a credit from the flow control before they are written, and wait in the write queue where the
-- socket is full. Which node gets a request is decided by the slot of its key, the CRC32 of the
-- key's tag, and for Flow partitions by a route key that stands behind a cache.
--
-- Files, and the code that they model:
--   Common       lists, maps in insertion order, big-endian words, thrown errors as values, and
--                UTF-8 as Buffer.from of node writes a string
--   Protocol/Frame         tryDecodeFrame of src/protocol.ts, its constants and its limit
--   Protocol/Value         encodeValue and decodeValue of src/protocol-value.ts, and
--                          src/protocol-map-key.ts
--   Protocol/Request       encodeRequest of src/protocol.ts, and what it uses of
--                          src/protocol-core.ts
--   Native/WriteQueue      NativeWriteQueue of src/native-write-queue.ts
--   Native/ReceiveBuffer   NativeReceiveBuffer and NativeFrameAssembly of
--                          src/native-receive-buffer.ts
--   Native/ChunkAssembler  NativeChunkAssembler of src/native-chunk-assembler.ts
--   Native/FlowControl     NativeFlowControl of src/native-flow-control.ts
--   Worker/PendingCompletions  QueuePendingCompletions of src/queue-pending-completions.ts
--   Worker/LeaseGuard      LeaseRenewalGuard of src/worker-lease-guard.ts
--   Routing/RouteCache     src/flow-partition-route-cache.ts
--   Routing/Crc            src/crc32.ts
--   Routing/Limiter        TaskConcurrencyLimiter of src/topology-utilities.ts
--   Routing/Slots          hashTagOrKey, routingSlotForKey and stringHashRange of
--                          src/topology-utilities.ts, and assertKeyValueCommandSharesSlot of
--                          src/key-slot-validation.ts
--   Routing/Topology       RoutingTopology of src/routing-topology.ts, and the endpoints of
--                          src/topology-utilities.ts
-- A method is the function with the method's name in snake case, from the object's state and its
-- arguments to the new state and the result. A thrown error is a value of Result. In the files
-- below a component stand what is proved of it and, in Runs, concrete runs.
--
-- Numbers are natural numbers; those of 32 bits and fewer are given by their bit pattern, and a
-- buffer is the list of its bytes. A page of the frame assembly is the list of its written bytes
-- with its size. A call that throws has no state behind it in the receive buffer, since the
-- connection is given up, and none in the chunk assembler, since it throws before it changes
-- anything.
--
-- Loops. The loops of the receive buffer have as fuel the bytes that they have to move, since a
-- round moves one byte at least. The pump of the flow control has the free credits of the
-- connection and the number of ready lanes: a round gives a credit away or takes a lane out of
-- the ready ones. The flush of the write queue has the entries behind the head. The decoder of
-- values goes down in its room, the depth that is left. The eviction loop of the route cache has
-- the number of entries, and the search for a waiter the slots of the queue.
--
-- Promises and timers. A waiter of the flow control is its number; resolve and reject are noted
-- in a list of outcomes, and the timer is the call expire. The lease guard is a machine of steps:
-- its calls, its interval, and its renewals that settle.
--
-- Parameters. What a socket answers to a write, and which requests are pending, are given to the
-- write queue; what String makes of a number, to the encoder of requests; whether bytes are
-- UTF-8, and as which string, to the decoder of values; whether a host is one of a URL, and how
-- it reads in lower case, to the topology. Base64, UTF-8 and SHA-256 of the route cache come from
-- node. Where a theorem needs that base64 gives different texts for different bytes, that is a
-- hypothesis.
--
-- Not modelled: sockets, TLS and HTTP, the clients' argument building and options, the compact
-- codecs, the refresh of the topology, workers and queues but for those parts, the adapters for
-- agent frameworks. They are input and output, or glue, or use the parts above without a part in
-- what is stated here.
pub mod Common
pub mod Native
pub mod Protocol
pub mod Routing
pub mod Worker
