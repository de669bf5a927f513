-- ===== src/Lib.antt =====
-- belcoin: a currency whose nodes agree on blocks of transactions by Raft. Each node keeps a ledger
-- of transactions with a flag for each output, a database of pending transactions with a timelock,
-- and a mempool. A leader proposes the hashes in its mempool as a block; every node queues a block
-- when Raft commits it, fetches the transactions that it lacks, verifies them one after the other and
-- writes those that are valid.
--
-- The parts and their files:
--   Tesseract    the attributes of tesseract's transactions, and its hash and signature functions as
--                parameters (`Crypto`)
--   Plyvel       the interface `Level` of a LevelDB database, with its documented behaviour;
--                Plyvel/Memory has an instance, which shows that it can be met
--   Exec         methods that change the node and may raise; Exec/Keeps: invariants; Exec/Agrees:
--                runs of two related nodes
--   Float        the quotient `/` of two integers as a float, and `int` of it
--   Config       belcoin_node/config.py
--   TxnWrapper   the class of belcoin_node/txnwrapper.py
--   Codec        its `serialize` and `unserialize`, and the dictionary methods of `Storage`, `PendingDB`
--                (belcoin_node/pendingdb.py) and `Mempool` (belcoin_node/mempool.py), over tesseract's
--                buffer as a parameter (`Buffer`); Codec/Stores: they implement the databases of
--                wrappers that the other modules use
--   Signature    belcoin_node/crypto/crypto.py over `ed25519ll` as a parameter (`Ed25519`); the other
--                modules take `verify_sig` from `Crypto`
--   Index        the balance index of belcoin_node/storage.py (`add_txn_to_balance_index`,
--                `del_out_from_balance_index`); Index/Laws: what it lists after each operation
--   State        the attributes of `Storage` and of its base class; `Env` bundles the parameters
--   Mempool      `add_to_mempool`, `remove_from_mempool`, `remove_invalid_txn_from_mempool`;
--                Mempool/Sound: the well-formedness of a state (`IsSound`)
--   Ledger       `write_txn_to_db`, the pending branch of `process_block`, `del_from_pending`;
--                Ledger/Spend: what the loop over the inputs does; Ledger/Value, Ledger/Conserve: the
--                sum of the unspent amounts; Ledger/Race: two threads that spend at once
--   Verify       `verify_txn`, `check_pend_replacement`; Verify/Spendable,
--                Verify/Accepts: when it accepts;
--                Verify/Effect, Verify/Fresh: what it changes; Verify/Total: when it returns;
--                Verify/Spending, Verify/Conserve, Verify/Mint, Verify/Dummy: what follows for the
--                ledger
--   Block        `process_block`, `update_pend`, `add_block_to_queue`; Block/Replicas: two nodes;
--                Block/Beside, Block/Progress: that a block is processed to its end;
--                Block/Locked: what stays pending
--   Fetch        `try_process`, `find_missing_transactions`, `request_missing_transaction`, `req_txn`,
--                `transaction_received`; Fetch/Progress: how a node goes on; Fetch/Peers:
--                whom it asks; Fetch/Stuck: how it stops or loses a block
--   Propose      `send_block` and the leader's part of `_onTick` in pysyncobjbc/syncobj.py;
--                Propose/Safety: what is proposed
--   Query        `utxos_for_pubkey`, `utxos_for_pubkey_grpc`, `get_balance`;
--                Query/Listings, Query/Complete: what the listings hold
--   Rpc          belcoin_node/rpcserver.py; Rpc/Replies: what it answers
--   Grpc         belcoin_node/grpcinterface.py
--   Start        `__init__` of `Storage`; Start/Restart: what a restart forgets
--   Event        the events that reach a node, in any order, and what ends SyncObj's thread and the
--                loop; Event/Invariant
--   Raft         the state of `SyncObj` in pysyncobjbc/syncobj.py, the fork of PySyncObj that this
--                repository keeps, and `__send`, `__callErrCallback`; its parameters (`Setup`) are the
--                configuration, pickle and the serializer
--   Raft/Log     the log and its queries (`__getEntries` and others); Raft/Log/Chain: logs that stand
--                in one book
--   Raft/Send    an entry that is sent in pieces; Raft/Send/Chunks, Raft/Send/Broken: what
--                arrives of it
--   Raft/Append  `__sendAppendEntries`
--   Raft/Cluster `__changeCluster`, `__doChangeCluster`; Raft/Cluster/Twice: two changes
--   Raft/Election  `__onBecomeLeader`, the requests for votes and the answers
--   Raft/Snapshot  `__loadDumpFile`, `__updateClusterConfiguration`
--   Raft/Follow  the `append_entries` messages; Raft/Follow/Replaces: what becomes of the log
--   Raft/Commands  `_applyCommand`, `_checkCommandsToApply` and the messages about commands;
--                Raft/Commands/Bounds: the queue
--   Raft/Tick    `_onTick`, `__doApplyCommand`; Raft/Tick/Commit, Raft/Tick/Apply: its two loops
--   Raft/Handle  `_onMessageReceived`, `__onMessageReceived` and the start of a node
--   Raft/Sound   what each handler keeps of the state of a node (`IsSound`), a module per handler
--   Raft/Network nodes, messages that get lost, late or doubled, and all orders of their steps;
--                Raft/Network/Tally: counting votes; Raft/Network/Books, Raft/Network/Good: the
--                invariant of the whole, with a book of all entries that leaders made;
--                Raft/Network/Safety, Raft/Network/Matching: what follows
--   Journal      `FileJournal` and `ResizableFile` of pysyncobjbc/journal.py; Journal/Bytes,
--                Journal/Records, Journal/Reload: what is read again
--   Tests        a node over toy cryptography and databases in memory, and the theorems applied to it
--
-- Byte strings are natural numbers where the code only compares them and hands them on, and lists of
-- octets in Codec, Signature, Raft and Journal. Times are natural numbers in units of
-- 1 / TIME_MULTIPLIER seconds; where the code divides by TIME_MULTIPLIER they are doubles (Float). In Raft
-- they are milliseconds. An exception is a value, and the state
-- beside it keeps what was written before.
--
-- Loops over lists are recursions over them. Six loops go by a bound. The commit loop has as many
-- rounds as there are entries after the commit index, which is enough, since each round raises it
-- (Raft/Tick/Commit). The loop over the pieces of an entry has as many as it has bytes, which is enough,
-- since each takes one at least (Raft/Send/Chunks). The loop that reads a journal has as many as the
-- records have bytes, which is enough, since each has eight at least (Journal/Records).
-- The scaling of a quotient has as many as there are exponents of a double, 971 above and 1074
-- below 2^53 (Float).
-- `__sendAppendEntries` and `_checkCommandsToApply` stop after a time: `Clock` says after how many
-- rounds, any number, and the theorems hold for each.
--
-- The source runs two threads: the reactor's, with the interfaces, the loop and the answers, and
-- SyncObj's (`autoTick`), with Raft's ticks, which take committed blocks and propose new ones. Event
-- takes each handler as a whole, one after the other; so do all theorems about one operation. No lock in the
-- source makes the threads wait for each other, and the interleavings inside handlers are not
-- modelled, but for the one in Ledger/Race.
--
-- Not modelled: printing, the time measurement, the artificial network delay, what VERBOSE switches
-- on, the transport of messages (twisted, txjsonrpc, grpc), the clients and test scripts. Of
-- pysyncobjbc: sockets, polling, name resolution and encryption, the forked writer of dumps (a
-- parameter), `deleteEntriesFrom` of the journal file, the containers in batteries.py, log
-- compaction (turned off in `_onTick`), status reports and the messages of the administration tool.
-- Votes and terms are not written to the disk by the code, so that the network has no restarts.
pub mod Prelude
pub mod Exec
pub mod Float
pub mod Tesseract
pub mod Dict
pub mod Plyvel
pub mod Config
pub mod TxnWrapper
pub mod Codec
pub mod Signature
pub mod Index
pub mod State
pub mod Mempool
pub mod Ledger
pub mod Verify
pub mod Block
pub mod Fetch
pub mod Propose
pub mod Query
pub mod Rpc
pub mod Grpc
pub mod Start
pub mod Event
pub mod Raft
pub mod Journal
pub mod Tests
