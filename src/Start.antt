-- ===== src/Start.antt =====
-- How a node starts: `__init__` of `Storage` in belcoin_node/storage.py, on the databases that it
-- finds. The databases are kept on disk; the indexes, the queues and `mempool_list` are not.
pub mod Sound
pub mod Restart
use belcoin.Prelude.{Bool, false, none, some, List, [], ◌∷◌}
use belcoin.Tesseract.{Bytes, Transaction}
use belcoin.TxnWrapper.{TxnWrapper, wrap}
use belcoin.Dict.{Dict}
use belcoin.Index.{Index, add_txn_to_balance_index}
use belcoin.State.{Env, Node}

module _ ⦃E : Env⦄ where
  open E use {crypto as C, wrappers as W, transactions as T}

  -- the loop over COINBASE
  unfoldable pub put_genesis : List Transaction → W.Db → W.Db
  put_genesis [] db = db
  put_genesis (txn ∷ coinbase) db =
      put_genesis coinbase
        (elim (W.get db txn.txid) [ some _ ↦ db | none ↦ W.put db txn.txid (wrap txn 0) ])

  -- a loop over a database that adds each transaction to an index
  unfoldable pub index_all : Dict TxnWrapper → Index → Index
  index_all [] index = index
  index_all ((_, w) ∷ rest) index =
      index_all rest (add_txn_to_balance_index C.get_pubkeys w.txn index)

  unfoldable pub init : List Transaction → W.Db → W.Db → T.Db → Node
  init coinbase db0 pend mempool =
      let db = put_genesis coinbase db0 in
      record {
        db = db;
        pend = pend;
        mempool = mempool;
        mempool_list = [];
        pub_outs = index_all (W.entries db) [];
        pub_outs_pend = index_all (W.entries pend) [];
        missing_txns = [];
        block_queue = [];
        current_block = [];
        processing = false;
        processing_block = false;
        adding_block = false;
        current_time = 0;
        invalid_txns = [];
        txns_processed = 0;
        txns_accepted = 0;
        txns_received = 0;
        missed_counter = 0;
        tickctr = 0;
        testing = false;
        sent = [];
      }

  -- The node is stopped and started again.
  unfoldable pub restart : List Transaction → Node → Node
  restart coinbase s = init coinbase s.db s.pend s.mempool
