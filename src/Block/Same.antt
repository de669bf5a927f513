-- ===== src/Block/Same.antt =====
-- What it is for two nodes to have the same ledger, and that the steps of `process_block` keep it.
-- (belcoin_node/storage.py)
use belcoin.Prelude.{ℕ, ◌≡◌, refl, ap, Bool, false, List, [], ◌∷◌, arith, In, set}
use belcoin.Tesseract.{Bytes, Input, Output, Transaction}
use belcoin.TxnWrapper.{TxnWrapper, wrap}
use belcoin.Index.{Index, add_txn_to_balance_index, del_out_from_balance_index, del_outputs}
use belcoin.State.{Env, Node}
use belcoin.Mempool.{remove_from_mempool, remove_invalid_txn_from_mempool}
use belcoin.Ledger.{mark_spent, spend_output, store, store_pending, del_from_pending}
use belcoin.Verify.{
  Locals, continue, invalid, raised, check_pend_replacement, verify_input, verify_inputs,
}
use belcoin.Block.{count_accepted, count_processed}

module _ ⦃E : Env⦄ where
  open E use {crypto as C, wrappers as W, transactions as T}

  -- The databases, the indexes and the time are the same, and so are the transactions that the
  -- mempools hold under the hashes listed. The rest of the mempools, their order, the queues and the
  -- counters may differ.
  pub record SameLedger (txids : List Bytes) (s s' : Node) : Type 0 where
    pub db : s.db ≡ s'.db
    pub pend : s.pend ≡ s'.pend
    pub pub_outs : s.pub_outs ≡ s'.pub_outs
    pub pub_outs_pend : s.pub_outs_pend ≡ s'.pub_outs_pend
    pub current_time : s.current_time ≡ s'.current_time
    pub pool : (k : Bytes) → In k txids → T.get s.mempool k ≡ T.get s'.mempool k

  module _ {txids : List Bytes} where
    pub remove-Same :
        (k : Bytes) (s s' : Node)
        → SameLedger txids s s'
        → SameLedger txids (remove_from_mempool k s) (remove_from_mempool k s')
    unfolding remove_from_mempool
    remove-Same k s s' h = record {
      db = h.db;
      pend = h.pend;
      pub_outs = h.pub_outs;
      pub_outs_pend = h.pub_outs_pend;
      current_time = h.current_time;
      pool = λ j i.
          ground (arith, T.get-delete s.mempool k j, T.get-delete s'.mempool k j, h.pool j i);
    }

    pub remove_invalid-Same :
        (k : Bytes) (s s' : Node)
        → SameLedger txids s s'
        → SameLedger txids
            (remove_invalid_txn_from_mempool k s)
            (remove_invalid_txn_from_mempool k s')
    unfolding remove_invalid_txn_from_mempool
    remove_invalid-Same k s s' h = remove-Same k _ _ (record {
      db = h.db;
      pend = h.pend;
      pub_outs = h.pub_outs;
      pub_outs_pend = h.pub_outs_pend;
      current_time = h.current_time;
      pool = h.pool;
    })

    pub del_from_pending-Same :
        (tx : Transaction) (s s' : Node)
        → SameLedger txids s s'
        → SameLedger txids (del_from_pending tx s) (del_from_pending tx s')
    unfolding del_from_pending
    del_from_pending-Same tx s s' h = record {
      db = h.db;
      pend = ap (λ d. W.delete d tx.txid) h.pend;
      pub_outs = h.pub_outs;
      pub_outs_pend =
          ap (λ (x : Index). del_outputs C.get_pubkeys tx.txid 0 tx.outputs x) h.pub_outs_pend;
      current_time = h.current_time;
      pool = h.pool;
    }

    pub store-Same :
        (txn : Transaction) (ts : ℕ) (s s' : Node)
        → SameLedger txids s s'
        → SameLedger txids (store txn ts s) (store txn ts s')
    unfolding store
    store-Same txn ts s s' h = record {
      db = ap (λ d. W.put d txn.txid (wrap txn ts)) h.db;
      pend = h.pend;
      pub_outs = ap (add_txn_to_balance_index C.get_pubkeys txn) h.pub_outs;
      pub_outs_pend = h.pub_outs_pend;
      current_time = h.current_time;
      pool = h.pool;
    }

    pub store_pending-Same :
        (txn : Transaction) (ts : ℕ) (s s' : Node)
        → SameLedger txids s s'
        → SameLedger txids (store_pending txn ts s) (store_pending txn ts s')
    unfolding store_pending
    store_pending-Same txn ts s s' h = record {
      db = h.db;
      pend = ap (λ d. W.put d txn.txid (wrap txn ts)) h.pend;
      pub_outs = h.pub_outs;
      pub_outs_pend = ap (add_txn_to_balance_index C.get_pubkeys txn) h.pub_outs_pend;
      current_time = h.current_time;
      pool = h.pool;
    }

    -- `verify_inputs` reads the two databases and the time only.
    pub verify_input-Same :
        (b : Bool) (txn : Transaction) (inp : Input) (l : Locals) (s s' : Node)
        → SameLedger txids s s'
        → verify_input b txn s inp l ≡ verify_input b txn s' inp l
    unfolding verify_input check_pend_replacement
    verify_input-Same b txn inp l s s' h = λ i.
        verify_input b txn
          (record s { db = h.db i; pend = h.pend i; current_time = h.current_time i }) inp l

    pub verify_inputs-Same :
        (b : Bool) (txn : Transaction) (inps : List Input) (l : Locals) (s s' : Node)
        → SameLedger txids s s'
        → verify_inputs b txn s inps l ≡ verify_inputs b txn s' inps l
    unfolding verify_inputs
    verify_inputs-Same b txn [] l s s' h = refl
    verify_inputs-Same b txn (inp ∷ inps) l s s' h = λ i.
        elim (verify_input-Same b txn inp l s s' h i) [
          | continue l' ↦ (verify_inputs-Same b txn inps l' s s' h) i
          | invalid ↦ invalid
          | raised e ↦ raised e
        ]

    pub spend_output-Same :
        (inp : Input) (w : TxnWrapper) (o : Output) (s s' : Node)
        → SameLedger txids s s'
        → SameLedger txids (spend_output inp w o s) (spend_output inp w o s')
    unfolding spend_output
    spend_output-Same inp w o s s' h = record {
      db = ap (λ d. W.put d inp.txid (record w { utxos = set w.utxos inp.index false })) h.db;
      pend = h.pend;
      pub_outs =
          ap (λ (x : Index). del_out_from_balance_index (C.get_pubkeys o) (inp.txid, inp.index) x)
            h.pub_outs;
      pub_outs_pend = h.pub_outs_pend;
      current_time = h.current_time;
      pool = h.pool;
    }

    pub mark_spent-Same :
        (inp : Input) (w : TxnWrapper) (s s' : Node)
        → SameLedger txids s s'
        → SameLedger txids (mark_spent inp w s) (mark_spent inp w s')
    unfolding mark_spent
    mark_spent-Same inp w s s' h = record {
      db = ap (λ d. W.put d inp.txid (record w { utxos = set w.utxos inp.index false })) h.db;
      pend = h.pend;
      pub_outs = h.pub_outs;
      pub_outs_pend = h.pub_outs_pend;
      current_time = h.current_time;
      pool = h.pool;
    }

    pub count_accepted-Same :
        (s s' : Node)
        → SameLedger txids s s'
        → SameLedger txids (count_accepted s) (count_accepted s')
    unfolding count_accepted
    count_accepted-Same s s' h = record {
      db = h.db;
      pend = h.pend;
      pub_outs = h.pub_outs;
      pub_outs_pend = h.pub_outs_pend;
      current_time = h.current_time;
      pool = h.pool;
    }

    pub count_processed-Same :
        (s s' : Node)
        → SameLedger txids s s'
        → SameLedger txids (count_processed s) (count_processed s')
    unfolding count_processed
    count_processed-Same s s' h = record {
      db = h.db;
      pend = h.pend;
      pub_outs = h.pub_outs;
      pub_outs_pend = h.pub_outs_pend;
      current_time = h.current_time;
      pool = h.pool;
    }
