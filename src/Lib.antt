-- ===== src/Lib.antt =====
-- rosetta-thought serves the Rosetta API for the Thought chain. A client of the node thoughtd
-- (thought/) fetches blocks over JSON-RPC and translates them into Rosetta blocks; an indexer
-- (indexer/) syncs them into storage and finds, for each block, the coins that its inputs spend;
-- the services (services/) answer the endpoints from the indexer and the client; the configuration
-- (configuration/) comes from environment variables.
--
-- The files and the code that they are about:
--
-- Thought/Types, Sdk: the structures of thought/types.go and the types of rosetta-sdk-go that the
--   program builds.
-- Thought/Coin, Thought/Address: CoinIdentifier, TransactionHash, ParseCoinIdentifier and
--   ParseSingleAddress (thought/types.go, thought/utils.go), over Text, Text/Split, Text/Decimal and
--   Text/Hex, which have the string functions that they call.
-- Thought/RawBlock, Thought/BlockData, Thought/Operations, Thought/Created, Thought/Transactions:
--   GetRawBlock, parseBlockData, parseTxOperations, the coins that a block creates,
--   parseTransactions and ParseBlock (thought/client.go); proofs in Thought/Operations/Shape and in
--   Thought/Transactions/Creates, Complete, Total and Spends.
-- Thought/Ledger: what accounts hold by the operations of a block and by its unspent coins; Worth,
--   Within and Agrees have the lemmas of Reconciles.
-- Thought/Rpc: the requests of thought/client.go and the responses of thought/types.go; proofs in
--   Thought/Rpc/Blame.
-- Thought/Node, Services/Logger: logPipe (thought/node.go), LocalhostURL (thought/client.go) and
--   the status recorder (services/logger.go).
-- Indexer/WaitTable, Indexer/Events: the wait table (indexer/wait_table.go) and BlockSeen,
--   BlockAdded and BlockRemoved (indexer/indexer.go), cut into the sections that hold one lock;
--   proofs about the coin cache in Indexer/Events/Cache.
-- Indexer/Find, Indexer/Fetch: findCoin, checkHeaderMatch, findCoins and Block
--   (indexer/indexer.go); proofs in Indexer/Find/Complete, Reads and Stored, Indexer/Fetch/Retry,
--   Whole and Returned.
-- Indexer/Interleaving: the goroutines that share the wait table, as a step relation over those
--   sections; a wait that findCoins returns without taking out stays among its waits, marked as
--   given up; its invariant is in Indexer/Interleaving/Counting, Closing, Entering, Leaving and
--   Invariant, what follows in Indexer/Interleaving/Safety, Waking and Refinement.
-- Indexer/Schedule: the sections of BlockSeen, BlockAdded and BlockRemoved together with the coin
--   storage, as events in any order, and the passes of findCoin among them; Created and Counting say
--   what the sections make of the cache and of the count, Ready and Fresh where a coin is, Passes,
--   Finds and NoLoss what a pass of findCoin meets, and Gathers what findCoins returns.
-- Indexer/Pruning, Indexer/Syncing, Indexer/Queries, Indexer/Storage: Prune, waitForNode, Sync,
--   GetScriptPubKeys, GetBalance and the queries that a storage answers (indexer/indexer.go), and
--   what the storages call (indexer/balance_storage_helper.go, indexer/balance_storage_handler.go,
--   indexer/coin_storage_helper.go); proofs about the queries in Indexer/Queries/Scripts, Passing,
--   Parsed and Balance.
-- Services/Errors, Services/Interfaces, Services/Data: services/errors.go, services/types.go and
--   the endpoints of the account, block, mempool and network services; proofs in
--   Services/Errors/Codes and Services/Data/Answers.
-- Services/Construction: the endpoints of services/construction_service.go. Toolkit has the types
--   and the functions of other packages that they call; Intent has ConstructionDerive, estimateSize
--   and ConstructionPreprocess, Fee ConstructionMetadata, Payloads ConstructionPayloads, Parse
--   ConstructionParse, and Combine ConstructionCombine, ConstructionHash and ConstructionSubmit.
--   Payloads/Intended says what a payment is and what is relied on of the codecs; proofs in
--   Intent/Size, Fee/Prepare, Payloads/Build and RoundTrip, Parse/Reads and Short, Combine/Halves,
--   Sign and Flow, and Modes.
-- Services/Wiring: the endpoints over the indexer and the client of thoughtd, as
--   services/router.go is given them by main.go; a balance, a stored block and a whole payment in
--   Wiring/Balance, Wiring/Block and Wiring/Payment.
-- Configuration: LoadConfiguration (configuration/configuration.go); proofs in Configuration/Load.
-- Prelude, Outcome, Map, Examples: shared notions; the result of a Go function (a value, an error
--   or a panic); Go maps with string keys; concrete data and runs.
--
-- An error is the sentinel that `errors.Is` finds in it; messages are left out. A pointer that may
-- be nil is an option, and its dereference is a panic where it is nil. An int64 is an integer whose
-- arithmetic wraps in `int64`; the listeners of an entry of the wait table, an int that counts
-- goroutines, are an integer that does not wrap; a text is the list of its bytes.
--
-- Nothing is cut short by fuel. The loop of findCoin is given the list of the passes that it makes
-- before its context is done, the retry loop of Block its attempts, and findCoins one environment
-- for each round; the lists are arbitrary, so every number of passes is covered, and where a list
-- ends the context is done. The polls of waitForNode and the ticks of Prune are such lists too.
-- What other goroutines do between two sections is an arbitrary function of the shared state in
-- Indexer/Find, a sequence of steps in Indexer/Interleaving, and a list of events in
-- Indexer/Schedule, where a block is stored on top of the head, or as the first one, and only the
-- head is removed.
--
-- Parameters stand for code that is not the program's own: rosetta-sdk-go (its storages, its
-- asserter, its JSON maps, the negation of a decimal), the amounts, hashes, scripts, addresses and
-- transactions of the btcd copy in thoughtd/, the arithmetic of float64, HTTP and JSON decoding,
-- the operating system.
--
-- Not modelled: the opening of the database (indexer/indexer.go); process control, signals, routing
-- and memory statistics (main.go, StartThoughtd of thought/node.go, services/router.go,
-- utils/utils.go), which only do input and output; and the library copy in thoughtd/.
pub mod Prelude
pub mod Outcome
pub mod Text
pub mod Map
pub mod Sdk
pub mod Thought
pub mod Indexer
pub mod Services
pub mod Configuration
pub mod Examples
