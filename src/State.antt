-- ===== src/State.antt =====
-- The state of a node: the attributes of `Storage` (belcoin_node/storage.py, `__init__`) and those
-- that its base class `SyncObj` adds for it (pysyncobjbc/syncobj.py, lines 141-151).
use belcoin.Prelude.{ℕ, Bool, List}
use belcoin.Tesseract.{Bytes, Transaction, Crypto}
use belcoin.TxnWrapper.{TxnWrapper}
use belcoin.Index.{Index}
use belcoin.Plyvel.{Level}

-- `block = {'time': now, 'txns': txs}` of `send_block`
pub record Block : Type 0 where
  pub time : ℕ
  pub txns : List Bytes

-- What a node hands to the reactor, to Raft and to its peers: `callFromThread(self.req_txn, txid,
-- i)`; the block given to the replicated `add_block_to_queue`; and the broadcasts of `broadcast_txn`
-- and `broadcast_txn_batch` to every peer.
pub data Message : Type 0 where
  call_req_txn : Bytes → ℕ → Message
  propose : Block → Message
  broadcast_txn : Transaction → Message
  broadcast_txn_batch : List Transaction → Message

-- `Db` and `MemDb` are the contents of the databases of wrapped transactions and of the mempool.
pub record State (Db MemDb : Type 0) : Type 0 where
  pub db : Db
  pub pend : Db
  pub mempool : MemDb
  pub mempool_list : List Bytes
  pub pub_outs : Index
  pub pub_outs_pend : Index
  pub missing_txns : List Bytes
  pub block_queue : List Block
  pub current_block : List Bytes
  pub processing : Bool
  pub processing_block : Bool
  pub adding_block : Bool
  pub current_time : ℕ
  pub invalid_txns : List Bytes
  pub txns_processed : ℕ
  pub txns_accepted : ℕ
  pub txns_received : ℕ
  pub missed_counter : ℕ
  pub tickctr : ℕ
  pub testing : Bool
  -- the calls made so far, last first
  pub sent : List Message

-- What is outside the repository: the functions of `tesseract`, the databases of wrapped
-- transactions (the ledger's and the pending one) and the mempool's database.
pub record Env : Type 1 where
  pub crypto : Crypto
  pub wrappers : Level TxnWrapper
  pub transactions : Level Transaction

abbrev pub Node : ⦃E : Env⦄ → Type 0
Node ⦃E⦄ = State E.wrappers.Db E.transactions.Db
