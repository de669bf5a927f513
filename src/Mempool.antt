-- ===== src/Mempool.antt =====
-- The mempool of a node: `add_to_mempool`, `remove_from_mempool` and
-- `remove_invalid_txn_from_mempool` of belcoin_node/storage.py, over the database of
-- belcoin_node/mempool.py and the list `mempool_list`, which keeps the order of arrival.
pub mod Sound
use belcoin.Prelude.{◌∷◌, [], ◌++◌, remove_first}
use belcoin.Tesseract.{Bytes, Transaction}
use belcoin.State.{Env, Node}

module _ ⦃E : Env⦄ where
  open E use {transactions as T}

  unfoldable pub add_to_mempool : Transaction → Node → Node
  add_to_mempool txn s = record s {
    mempool = T.put s.mempool txn.txid txn;
    mempool_list = s.mempool_list ++ (txn.txid ∷ []);
  }

  -- `del` of an absent key changes nothing, and the exception of `list.remove` is caught.
  unfoldable pub remove_from_mempool : Bytes → Node → Node
  remove_from_mempool txid s = record s {
    mempool = T.delete s.mempool txid;
    mempool_list = remove_first txid s.mempool_list;
  }

  unfoldable pub remove_invalid_txn_from_mempool : Bytes → Node → Node
  unfolding remove_from_mempool
  remove_invalid_txn_from_mempool txid s =
      remove_from_mempool txid (record s { invalid_txns = s.invalid_txns ++ (txid ∷ []) })
