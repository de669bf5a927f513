-- ===== src/Ledger.antt =====
-- The ledger of belcoin_node/storage.py: what an accepted transaction writes (`write_txn_to_db`,
-- and the branch of `process_block` for a transaction with a timelock), and `del_from_pending`.
pub mod Spend
pub mod Sound
pub mod Value
pub mod Conserve
pub mod Race
use belcoin.Prelude.{
  List, [], ◌∷◌, ℕ, ◌+◌, false, Option, none, some, ltb, if◌then◌else◌, length, get_elem?, set,
}
use belcoin.Tesseract.{Input, Output, Transaction}
use belcoin.Exec.{
  Exec, key_error, index_error, raise, gets, or_raise, modify, for_each, ◌>>=◌, ◌>>◌,
}
use belcoin.TxnWrapper.{TxnWrapper, wrap}
use belcoin.Index.{Ref, add_txn_to_balance_index, del_out_from_balance_index, del_outputs}
use belcoin.State.{Env, Node}

-- `sum([out.amount for out in txn.outputs])`
abbrev pub amounts : List Output → ℕ
amounts [] = 0
amounts (o ∷ os) = o.amount + amounts os

-- `comparable_input`: what identifies the output that an input spends
abbrev pub comparable_input : Input → Ref
comparable_input inp = (inp.txid, inp.index)

abbrev pub input_refs : List Input → List Ref
input_refs [] = []
input_refs (inp ∷ inps) = comparable_input inp ∷ input_refs inps

module _ ⦃E : Env⦄ where
  open E use {crypto as C, wrappers as W}

  -- `utxos[index] = False; self[txid] = output_txnw`, and the output leaves the index
  unfoldable pub spend_output : Input → TxnWrapper → Output → Node → Node
  spend_output inp w o s = record s {
    db = W.put s.db inp.txid (record w { utxos = set w.utxos inp.index false });
    pub_outs = del_out_from_balance_index (C.get_pubkeys o) (inp.txid, inp.index) s.pub_outs;
  }

  -- `utxos[index] = False; self[txid] = output_txnw`
  unfoldable pub mark_spent : Input → TxnWrapper → Node → Node
  mark_spent inp w s = record s {
    db = W.put s.db inp.txid (record w { utxos = set w.utxos inp.index false });
  }

  -- The write to the database comes before the access to `outputs`, which may raise.
  unfoldable pub spend_at : Input → TxnWrapper → Option Output → Exec Node (Unit {0})
  unfolding mark_spent
  spend_at inp w none = modify (mark_spent inp w) >> raise index_error
  spend_at inp w (some o) = modify (spend_output inp w o)

  -- The loop body over the inputs, the same in `write_txn_to_db` and `process_block`.
  unfoldable pub spend : Input → Exec Node (Unit {0})
  unfolding spend_at
  spend inp = do
    w ← or_raise (← gets (λ s. W.get s.db inp.txid)) key_error
    if ltb inp.index (length w.utxos)
        then spend_at inp w (get_elem? w.txn.outputs inp.index)
        else raise index_error

  unfoldable pub store : Transaction → ℕ → Node → Node
  store txn ts s = record s {
    db = W.put s.db txn.txid (wrap txn ts);
    pub_outs = add_txn_to_balance_index C.get_pubkeys txn s.pub_outs;
  }

  unfoldable pub write_txn_to_db : Transaction → ℕ → Exec (Node) (Unit {0})
  write_txn_to_db txn ts = for_each txn.inputs spend >> modify (store txn ts)

  unfoldable pub store_pending : Transaction → ℕ → Node → Node
  store_pending txn ts s = record s {
    pend = W.put s.pend txn.txid (wrap txn ts);
    pub_outs_pend = add_txn_to_balance_index C.get_pubkeys txn s.pub_outs_pend;
  }

  -- The branch `if txn.timelock:` of `process_block`.
  unfoldable pub write_txn_to_pend : Transaction → ℕ → Exec (Node) (Unit {0})
  write_txn_to_pend txn ts = modify (store_pending txn ts) >> for_each txn.inputs spend

  unfoldable pub del_from_pending : Transaction → Node → Node
  del_from_pending tx s = record s {
    pend = W.delete s.pend tx.txid;
    pub_outs_pend = del_outputs C.get_pubkeys tx.txid 0 tx.outputs s.pub_outs_pend;
  }
