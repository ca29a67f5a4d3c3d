-- ===== src/Lib.antt =====
-- go-iroh-experiments: a verification library for the Go packages x402iroh, tlogiroh, dagsync,
-- contentdiscovery, enclaveiroh, dtrain, xetstore and s3baostore. Paths are from the repository's
-- root.
--
-- The program. The repository holds separate packages on top of go-iroh, each a protocol between
-- endpoints that a key names. They share no state; each part below stands for one package.
--
-- * X402 is x402iroh: paid requests. A wallet (wallet.go: Pay is `pay`, pay is `pay_requirement`)
--   signs an authorization (scheme.go: signingMessage, SignAuthorization, VerifyAuthorization),
--   and a ledger (ledger.go: Credit, Balance, Verify, Settle, check) checks it against the clock,
--   the spent nonces and the balances, and settles it. The ledger is a record with the two maps;
--   each method is a function from a ledger to a ledger and its response. `check` is in the order
--   of the code: `check_terms`, `check_window`, `check_signed`, `check_funds`.
-- * Tlog is tlogiroh: a transparency log. Checkpoint and Notes are checkpoint.go, Equivocation is
--   equivocation.go and gossip.go, Policy is policy.go, Witness is witness.go (with Loop for
--   Run), Client is client.go, Source is source.go, Operator is operator.go (Append, Publish,
--   Source). A witness and a client hold their head and take a message to a new state and a
--   result; the loops of Run and of Watch (Client/Watch) are step functions on events, with what
--   topic.Broadcast and yield were called with as lists.
-- * Dagsync is dagsync: transfer of IPLD graphs. Protocol is protocol.go, Tables is tables.go,
--   Traversal is traversal.go, Sync is sync.go. The server's response is the bytes written and
--   the error that ended them; the receiver is its tables, its blobs and the bytes that are left.
-- * Discovery is contentdiscovery: a tracker of announces. Protocol is protocol.go, Store is
--   store.go, Tracker is tracker.go.
-- * Enclave is enclaveiroh: claims of code identity and the policy over them (claim.go,
--   codeidentity.go), the peers known so far (knownpeers.go), whose map Pin takes to a new map
--   and a result, and the handshake (handshake.go). Messages has its modes, messages and frames;
--   Handshake runs one side of runHandshake on what the peer sends until the deadline; the
--   stream, the output, the pins and the variables that the callbacks set are a record, and a
--   callback takes it to a new one and an error.
-- * Dtrain is dtrain/group.go: collectives over ranked groups. Group is the membership and the
--   ranks (setMember, removeMember, refreshLocked), Events what handle and run do with the
--   topic's events, Frame the frames of a stream, Exchange what a member says to another
--   (exchange, publishLocal, waitInboundFrame), Collective the collectives (AllReduce, AllGather,
--   ReduceScatter, Barrier, Broadcast), and Handler what a stream's receiver does (serve,
--   deliverInbound, waitLocal). A channel is the frames in it and its capacity; Handler/Moves has
--   the orders in which a collective's start and end and the deliveries of streams can happen.
-- * Stores is xetstore/store.go (Xet, with the texts of paths and headers in Texts) and
--   s3baostore/store.go (S3): blob stores whose entries may stay behind HTTP. Http is what both
--   use; Reads, Imports and Urls have the theorems.
-- * Go models what the packages use of Go's standard library: strconv (Decimal, Int),
--   encoding/hex, encoding/binary (Uvarint, BigEndian) and strings. Base holds what all parts
--   share.
--
-- Parameters. Code of other modules is a record of functions named Api in each part, with laws
-- that say what its documentation promises: keys, signatures, JSON and SHA-256 in X402.Api; notes
-- and tree proofs in Tlog.Api, blobs, docs and tiles in Tlog.Operator (a doc is the list of its
-- records); CIDs, IPLD nodes, postcard and blobs in Dagsync.Api and Dagsync.Sync.Item; keys,
-- postcard and hosts in Discovery.Api; base64 and endpoint texts in Enclave.Claim; JSON and ECDSA
-- in Enclave.Messages; JSON, keys, addresses and the arithmetic of float32 values (as their bits)
-- in Dtrain.Api; HTTP, URLs and BAO in Stores.Http. A Tests module in each part gives functions
-- with these laws, and applies the theorems to them.
--
-- Bounds and fuel. Balances are 64-bit and wrap as in the code; seconds are int64 and wrap where
-- time.Unix wraps. A uvarint has nine continuation bytes, enough for 64 bits. The loop of
-- fullTraversal has one step of fuel more than the tables have links, since a visit pushes the
-- links of its CID once at most; the loop of readFullSyncResponse has its fuel from the caller. A
-- wait of dtrain takes what has arrived by the deadline, or ends with it. A range of a remote
-- entry ends below 2 ^ 64.
--
-- Assumed. A mutex makes each operation one step. Contexts are not cancelled. Clocks are after
-- 1970, and a wallet's is past its clock skew; MaxValidity is not negative. Random bytes can be
-- read. Writing to a stream does not fail.
--
-- Not modelled: the reading of tiles of tlogiroh; the wire form of dagsync requests; connections
-- and commands; the subscription and the announce ticker of dtrain; opening the stream of a
-- handshake; pkarrnaming, grpciroh, h3iroh, directpath and wasmrelay.
mod Base
pub mod Go
pub mod X402
pub mod Tlog
pub mod Dagsync
pub mod Discovery
pub mod Enclave
pub mod Dtrain
pub mod Stores
