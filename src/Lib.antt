-- ===== src/Lib.antt =====
-- Verification of HavenClaw's chain runtime: hypersdk, the Go part of the repository.
--
-- hypersdk runs a chain of blocks whose transactions declare state keys with permissions, execute
-- against views of a temporary state, and pay fees in five dimensions. The files model these parts:
--
--   Keys           hypersdk/keys/keys.go: the chunk suffix of a state key.
--   StateKeys      hypersdk/state/keys.go: permissions, declared keys, scopes.
--   TState         hypersdk/state/tstate/tstate.go: the state that a block's transactions share;
--                  TState.View is tstate_view.go: reads, Insert, Remove, Rollback and Commit.
--   Window         hypersdk/internal/window/window.go: ten counters of units in 80 bytes.
--   Fees           Fees.Dimensions is hypersdk/fees/dimension.go, Fees.Largest is
--                  hypersdk/fees/set.go, Fees.Manager is hypersdk/internal/fees/manager.go.
--   Mutable        hypersdk/state/state.go: the interface Mutable with its laws, which Mutable.Views
--                  fills by the views of TState and Mutable.Plain by a map.
--   Balances       Balances.Handler is hypersdk/state/balance/balance.go, from which fees are paid;
--                  Balances.Morpheus is hypersdk/examples/morpheusvm/storage/storage.go with the
--                  transfer of hypersdk/examples/morpheusvm/actions/transfer.go.
--   Operator       hypersdk/internal/math/uint64.go: sums and products with one error.
--   Blocks         hypersdk/chain/processor.go: the context of a block; Blocks.Processing is the
--                  execution of its transactions, with hypersdk/internal/fetcher/fetcher.go.
--   Transactions   hypersdk/chain/transaction.go, base.go, and the interfaces of dependencies.go;
--                  VerifyTimestamp of hypersdk/internal/validitywindow/validitywindow.go.
--                  Transactions.Execution is PreExecute and Execute, and Transactions.Transfers
--                  gives them the actions and the handler of Balances.
--                  Transactions.Estimate is EstimateUnits.
--   Bonds          hypersdk/internal/chain/bond.go: the limit of pending fees of an account.
--   Metadata       hypersdk/state/metadata/state_manager.go: the prefixes of the chain's own keys.
--   Heap           hypersdk/internal/heap: heap.go and inner_heap.go, with container/heap's loops.
--   Emap           hypersdk/internal/emap/emap.go: the ids seen, by expiry.
--   Eheap          hypersdk/internal/eheap/eheap.go: items by expiry.
--   Mempool        hypersdk/internal/mempool/mempool.go, over hypersdk/internal/list/list.go.
--   ChainIndex     hypersdk/chainindex/chain_index.go: accepted blocks on disk, in a window.
--   Database       avalanchego's database and its batches: an interface with laws.
--   Validity       hypersdk/internal/validitywindow/validitywindow.go: the replay protection.
--   Sets           avalanchego's set.Set and set.Bits: an interface with the laws of their methods.
--   Dict, Bytes    Go's maps, and encoding/binary's BigEndian on slices.
--   SafeMath       avalanchego's utils/math, which the repository calls and does not contain: an
--                  interface, with its documented results as the hypothesis IsChecked.
--   Tests          runs of the definitions, and the theorems at concrete inputs.
--
-- A view consults the declared keys (StateKeys) through its scope and the suffix of a key (Keys) for
-- the size of a value; the fee manager keeps a window and prices in the dimensions of Fees. A
-- transaction computes its units with Operator, asks the fee manager for their fee, has the balance
-- handler deduct it from its view, and lets its actions write the view, which it rolls back where
-- one fails.
--
-- The expiry map keeps its buckets in a heap, and the expiry heap its items; the mempool keeps its
-- items in a queue and in an expiry heap. The validity window enters the containers of accepted blocks
-- into an expiry map, and looks for those of a new block there and in the blocks between.
--
-- Conventions. A byte string is a list of numbers, a uint64 a number whose bound is a hypothesis
-- where it matters, an int64 its bit pattern. A Go map is an association list (Dict). A result with
-- an error is an Option, or the type of results of the component; a panic of division by zero in
-- the fee manager is `none`. A mutable receiver is an argument and a part of the result. A loop over
-- the five dimensions counts the rounds left. The loop of Fees.Largest.compact takes as many rounds
-- as the slice has entries and one more, which suffices since each round moves one of its two
-- counters. The loops of Heap take a round for each entry at most, those of the two SetMin and of Top
-- a round for each entry of their heap and one to stop, and the walks over ancestors a round for each
-- height; that these suffice is proved of the functions that call them. An id, and a timestamp in
-- milliseconds, is a number; a timestamp is not negative. A pointer is the id of what it points to: of
-- an entry in a heap, of an item in the queue; a bucket is pointed to by its time, which EMap.times
-- has for as long as the heap has the bucket. maybe.Maybe is an Option. Slices that share memory are
-- not modelled, nor are locks: each operation holds its lock to the end.
--
-- Actions, auth, the balance handler of a transaction and the hash of action ids are arguments.
-- avalanchego's database and its packing of a uint64 are interfaces with the laws IsAtomic and
-- IsBigEndian. The state keys that a transaction caches are computed again at each call.
--
-- The chain index is an argument of the window, as is the time for which containers are valid.
--
-- The executor runs tasks with conflicting keys in the order of the block, and others at once; the
-- model runs each task as it is queued. The actions of a transaction in a block, and the balance
-- handler, are functions of the temporary state, which they read.
--
-- Not modelled: the syncer of the validity window, the building of blocks, Processor.Execute around
-- executeTxs, the executor and dsmr, which are parts of the core; networking, consensus glue,
-- storage engines, RPC, generated codecs, command lines and the cryptography, which is in libraries
-- outside the repository; text and JSON formats.
pub mod Prelude
pub mod Dict
pub mod Bytes
pub mod Keys
pub mod Mutable
pub mod Balances
pub mod Heap
pub mod Sets
pub mod Emap
pub mod Validity
pub mod Eheap
pub mod Mempool
pub mod ChainIndex
pub mod Database
pub mod Blocks
pub mod Bonds
pub mod Metadata
pub mod Operator
pub mod Transactions
pub mod StateKeys
pub mod TState
pub mod SafeMath
pub mod Window
pub mod Fees
mod Tests
