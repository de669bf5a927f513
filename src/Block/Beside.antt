-- ===== src/Block/Beside.antt =====
-- What the processing of a transaction leaves alone: the queue of blocks, and the rest of the mempool.
use belcoin.Prelude.{◌≡◌, ◌≢◌, refl, ap, ◌∙◌, Bool, none, some, arith}
use belcoin.Tesseract.{Bytes, Input, Transaction}
use belcoin.Exec.{Result, index_error, raise, modify}
use belcoin.Exec.Keeps.{Keeps, Keeps-raise, Keeps-modify, Keeps-bind, keeps_rules}
use belcoin.TxnWrapper.{TxnWrapper}
use belcoin.State.{Env, Node}
use belcoin.Mempool.{remove_from_mempool, remove_invalid_txn_from_mempool}
use belcoin.Ledger.{
  spend, spend_at, spend_output, mark_spent, store, write_txn_to_db, store_pending,
  write_txn_to_pend, del_from_pending,
}
use belcoin.Verify.{verify_txn}
use belcoin.Verify.Effect.{
  Ending, stored_already, rejected, accepted, replacing, stopped, verify_txn-Ending,
}
use belcoin.Block.{count_accepted, count_processed, accept_txn}

module _ ⦃E : Env⦄ where
  open E use {transactions as T}

  module _ (txid : Bytes) (s : Node) where
    pub record Beside (s' : Node) : Type 0 where
      pub queue : s'.block_queue ≡ s.block_queue
      pub time : s'.current_time ≡ s.current_time
      pub pool : (k : Bytes) → k ≢ txid → T.get s'.mempool k ≡ T.get s.mempool k

    Beside-same :
        (a b : Node)
        → Beside a
        → b.block_queue ≡ a.block_queue
        → b.current_time ≡ a.current_time
        → b.mempool ≡ a.mempool
        → Beside b
    Beside-same a b h q t m = record {
      queue = q ∙ h.queue;
      time = t ∙ h.time;
      pool = λ k n. ap (λ d. T.get d k) m ∙ h.pool k n;
    }

    pub remove-Beside : (a : Node) → Beside a → Beside (remove_from_mempool txid a)
    unfolding remove_from_mempool
    remove-Beside a h = record {
      queue = h.queue;
      time = h.time;
      pool = λ k n. ground (arith, T.get-delete a.mempool txid k, h.pool k n, n);
    }

    remove_invalid-Beside : (a : Node) → Beside a → Beside (remove_invalid_txn_from_mempool txid a)
    unfolding remove_invalid_txn_from_mempool
    remove_invalid-Beside a h = remove-Beside _ (Beside-same a _ h refl refl refl)

    spend_at-Beside : (inp : Input) (w : TxnWrapper) (o : _) → Keeps Beside (spend_at inp w o)
    unfolding spend_at spend_output mark_spent
    spend_at-Beside inp w none =
        Keeps-bind (modify (mark_spent inp w)) (λ _. raise index_error)
          (Keeps-modify _ (λ a h. Beside-same a _ h refl refl refl)) (λ _. Keeps-raise index_error)
    spend_at-Beside inp w (some o) = Keeps-modify _ (λ a h. Beside-same a _ h refl refl refl)

    spend-Beside : (inp : Input) → Keeps Beside (spend inp)
    unfolding spend
    spend-Beside inp = search (keeps_rules, Keeps-raise, spend_at-Beside) depth 8

    store-Beside : (txn : Transaction) (ts : _) (a : Node) → Beside a → Beside (store txn ts a)
    unfolding store
    store-Beside txn ts a h = Beside-same a _ h refl refl refl

    store_pending-Beside :
        (txn : Transaction) (ts : _) (a : Node) → Beside a → Beside (store_pending txn ts a)
    unfolding store_pending
    store_pending-Beside txn ts a h = Beside-same a _ h refl refl refl

    count_accepted-Beside : (a : Node) → Beside a → Beside (count_accepted a)
    unfolding count_accepted
    count_accepted-Beside a h = Beside-same a _ h refl refl refl

    pub count_processed-Beside : (a : Node) → Beside a → Beside (count_processed a)
    unfolding count_processed
    count_processed-Beside a h = Beside-same a _ h refl refl refl

    pub accept_txn-Beside : (txn : Transaction) → Keeps Beside (accept_txn txn)
    unfolding accept_txn write_txn_to_db write_txn_to_pend
    accept_txn-Beside txn =
        search
          (keeps_rules, spend-Beside, store-Beside, store_pending-Beside, count_accepted-Beside)
          depth 9

    pub verify_txn-Beside :
        (b : Bool) (txn : Transaction) → txn.txid ≡ txid → Keeps Beside (verify_txn b txn)
    unfolding del_from_pending
    verify_txn-Beside b txn same = record {
      at = λ a h. at_ending a h (verify_txn b txn a) (verify_txn-Ending b txn a);
    }
      where
        at_ending : (a : Node) → Beside a → (r : Result Bool × Node) → Ending b txn a r → Beside r.1
        at_ending a h r (stored_already e) = rw e (rw same (remove-Beside a h))
        at_ending a h r (rejected e) = rw e (rw same (remove_invalid-Beside a h))
        at_ending a h r (accepted e) = rw e h
        at_ending a h r (replacing tx e) = rw e (Beside-same a _ h refl refl refl)
        at_ending a h r (stopped x e) = rw e h
