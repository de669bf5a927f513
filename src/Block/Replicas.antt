-- ===== src/Block/Replicas.antt =====
-- Two nodes with the same ledger that have the transactions of a block process it alike.
use belcoin.Prelude.{
  ℕ, ◌≡◌, refl, ap, Bool, true, false, Option, none, some, List, ◌==◌, if◌then◌else◌, In, ltb,
  length, get_elem?, is_some,
}
use belcoin.Tesseract.{Bytes, Input, Output, Transaction}
use belcoin.Exec.{
  Exec, ok, invalid_transaction_error, pure, gets, raise, or_raise, modify, for_each, key_error,
  index_error,
}
use belcoin.Exec.Agrees.{
  Agrees, Agrees-bind, Agrees-modify, Agrees-pure, Agrees-gets, Agrees-or_raise, Agrees-raise,
  Agrees-if, Agrees-for_each,
}
use belcoin.TxnWrapper.{TxnWrapper}
use belcoin.State.{Env, Node}
use belcoin.Mempool.{remove_invalid_txn_from_mempool}
use belcoin.Ledger.{
  amounts, spend, spend_at, mark_spent, write_txn_to_db, store_pending, write_txn_to_pend,
}
use belcoin.Verify.{
  Replacement, no_match, refused, replaces, Locals, Step, continue, invalid, raised, verify_inputs,
  finish_check, conclude, reject_stored, verify_txn,
}
use belcoin.Block.{count_processed, accept_txn, process_txn}
use belcoin.Block.Same.{
  SameLedger, remove-Same, remove_invalid-Same, del_from_pending-Same, store-Same,
  store_pending-Same, verify_inputs-Same, spend_output-Same, mark_spent-Same, count_accepted-Same,
  count_processed-Same,
}

module _ ⦃E : Env⦄ where
  open E use {wrappers as W, transactions as T}

  -- Both run the action with the same result.
  abbrev Alike : {A : Type 0} → List Bytes → Exec Node A → Type 0
  Alike txids m = Agrees (SameLedger txids) m

  module _ {txids : List Bytes} where
    spend_at-Alike :
        (inp : Input) (w : TxnWrapper) (o : Option Output) → Alike txids (spend_at inp w o)
    unfolding spend_at
    spend_at-Alike inp w none =
        Agrees-bind (modify (mark_spent inp w)) (λ _. raise index_error)
          (Agrees-modify _ (mark_spent-Same inp w)) (λ _. Agrees-raise index_error)
    spend_at-Alike inp w (some o) = Agrees-modify _ (spend_output-Same inp w o)

    spend-Alike : (inp : Input) → Alike txids (spend inp)
    unfolding spend
    spend-Alike inp =
        Agrees-bind (gets (λ s. W.get s.db inp.txid)) _
          (Agrees-gets _ (λ s s' h. ap (λ d. W.get d inp.txid) h.db))
          (λ found. Agrees-bind (or_raise found key_error) _ (Agrees-or_raise found key_error) (λ w.
            Agrees-if (ltb inp.index (length w.utxos)) _ _
              (spend_at-Alike inp w (get_elem? w.txn.outputs inp.index))
              (Agrees-raise index_error)))

    write_txn_to_db-Alike : (txn : Transaction) (ts : ℕ) → Alike txids (write_txn_to_db txn ts)
    unfolding write_txn_to_db
    write_txn_to_db-Alike txn ts =
        Agrees-bind (for_each txn.inputs spend) _
          (Agrees-for_each txn.inputs spend (λ inp _. spend-Alike inp))
          (λ _. Agrees-modify _ (store-Same txn ts))

    write_txn_to_pend-Alike : (txn : Transaction) (ts : ℕ) → Alike txids (write_txn_to_pend txn ts)
    unfolding write_txn_to_pend
    write_txn_to_pend-Alike txn ts =
        Agrees-bind (modify (store_pending txn ts)) _ (Agrees-modify _ (store_pending-Same txn ts))
          (λ _. Agrees-for_each txn.inputs spend (λ inp _. spend-Alike inp))

    finish_check-Alike : (c : Option Replacement) → Alike txids (finish_check c)
    unfolding finish_check
    finish_check-Alike none = record { at = λ s s' h. (refl, h) }
    finish_check-Alike (some (replaces tx)) = record {
      at = λ s s' h. (refl, del_from_pending-Same tx s s' h);
    }
    finish_check-Alike (some no_match) = record { at = λ s s' h. (refl, h) }
    finish_check-Alike (some refused) = record { at = λ s s' h. (refl, h) }

    conclude-Alike :
        (b : Bool) (txn : Transaction) (r : Step Locals) → Alike txids (conclude b txn r)
    unfolding conclude
    conclude-Alike b txn (raised e) = record { at = λ s s' h. (refl, h) }
    conclude-Alike b txn invalid = record {
      at = λ s s' h. (refl, remove_invalid-Same txn.txid s s' h);
    }
    conclude-Alike b txn (continue l) = record {
      at = λ s s' h. balance (l.has_coins == amounts txn.outputs) b s s' h;
    }
      where
        balance :
            (t c : Bool) (s s' : Node)
            → SameLedger txids s s'
            → ((if t
                  then (if c then finish_check l.check s else (ok true, s))
                  else (ok false, remove_invalid_txn_from_mempool txn.txid s)).0
                ≡ (if t
                    then (if c then finish_check l.check s' else (ok true, s'))
                    else (ok false, remove_invalid_txn_from_mempool txn.txid s')).0)
              × SameLedger txids
                  (if t
                    then (if c then finish_check l.check s else (ok true, s))
                    else (ok false, remove_invalid_txn_from_mempool txn.txid s)).1
                  (if t
                    then (if c then finish_check l.check s' else (ok true, s'))
                    else (ok false, remove_invalid_txn_from_mempool txn.txid s')).1
        balance true true s s' h = (finish_check-Alike l.check).at s s' h
        balance true false s s' h = (refl, h)
        balance false c s s' h = (refl, remove_invalid-Same txn.txid s s' h)

    reject_stored-Alike : (txn : Transaction) → Alike txids (reject_stored txn)
    unfolding reject_stored
    reject_stored-Alike txn = record { at = λ s s' h. (refl, remove-Same txn.txid s s' h) }

    verify_txn-Alike : (b : Bool) (txn : Transaction) → Alike txids (verify_txn b txn)
    unfolding verify_txn
    verify_txn-Alike b txn =
        Agrees-bind (gets (λ s. W.get s.db txn.txid)) _
          (Agrees-gets _ (λ s s' h. ap (λ d. W.get d txn.txid) h.db))
          (λ stored.
            Agrees-bind
              (gets
                (λ s. verify_inputs b txn s txn.inputs (record { has_coins = 0; check = none })))
              _ (Agrees-gets _ (verify_inputs-Same b txn txn.inputs _))
              (λ r.
                Agrees-if (is_some stored) _ _ (reject_stored-Alike txn) (conclude-Alike b txn r)))

    accept_txn-Alike : (txn : Transaction) → Alike txids (accept_txn txn)
    unfolding accept_txn
    accept_txn-Alike txn =
        Agrees-bind (gets (λ s. s.current_time)) _ (Agrees-gets _ (λ s s' h. h.current_time)) (λ ts.
          Agrees-bind
            (if txn.timelock == 0 then write_txn_to_db txn ts else write_txn_to_pend txn ts) _
            (Agrees-if _ _ _ (write_txn_to_db-Alike txn ts) (write_txn_to_pend-Alike txn ts))
            (λ _. Agrees-modify _ count_accepted-Same))

    process_txn-Alike : (txid : Bytes) → In txid txids → Alike txids (process_txn txid)
    unfolding process_txn
    process_txn-Alike txid i =
        Agrees-bind (gets (λ s. T.get s.mempool txid)) _ (Agrees-gets _ (λ s s' h. h.pool txid i))
          (λ found.
            Agrees-bind (or_raise found invalid_transaction_error) _
              (Agrees-or_raise found invalid_transaction_error)
              (λ txn. Agrees-bind (verify_txn true txn) _ (verify_txn-Alike true txn) (λ valid.
                Agrees-bind (if valid then accept_txn txn else pure tt) _
                  (Agrees-if valid _ _ (accept_txn-Alike txn) (Agrees-pure tt))
                  (λ _.
                    Agrees-bind (modify count_processed) _ (Agrees-modify _ count_processed-Same)
                      (λ _. Agrees-modify _ (remove-Same txid))))))

  -- Two nodes whose databases, indexes and time are the same, and whose mempools hold the same
  -- transactions under the hashes of a block, whatever else differs between their mempools, queues and
  -- counters: the loop of `process_block` ends in the same way on both, with the same exception if it
  -- raises, and leaves both with the same databases and indexes.
  pub replicas_agree :
      (block : List Bytes) (s s' : Node)
      → SameLedger block s s'
      → ((for_each block process_txn s).0 ≡ (for_each block process_txn s').0)
        × SameLedger block (for_each block process_txn s).1 (for_each block process_txn s').1
  replicas_agree block = (Agrees-for_each block process_txn (λ txid i. process_txn-Alike txid i)).at
