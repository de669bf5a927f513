-- ===== src/Block/Sound.antt =====
-- The processing of blocks keeps a sound state, also where it stops with an exception.
use belcoin.Ledger.{write_txn_to_pend, write_txn_to_db, del_from_pending}
use belcoin.Mempool.{remove_from_mempool}
use mathlib.Core.Path.{subst}
use belcoin.Prelude.{
  Bool, none, true, false, ◌∙◌, ◌==◌, if◌then◌else◌, ◌≡◌, refl, sym, ap, ◌∙◌, elem, Once, List, [],
  ◌∷◌,
}
use belcoin.Tesseract.{Bytes, Transaction}
use belcoin.Exec.{pure, modify, ◌>>=◌, index_error}
use belcoin.Exec.Keeps.{
  Keeps, Keeps-raise, Keeps-modify, Keeps-bind, Keeps-pure, bind-at, keeps_rules,
}
use belcoin.TxnWrapper.{TxnWrapper}
use belcoin.State.{Env, Node, Block}
use belcoin.Mempool.Sound.{IsSound, owned_by, remove_from_mempool-IsSound}
use belcoin.Ledger.Sound.{
  write_txn_to_db-IsSound, write_txn_to_pend-IsSound, del_from_pending-IsSound,
}
use belcoin.Verify.{verify_txn}
use belcoin.Verify.Fresh.{verify_txn-then-IsSound}
use belcoin.Index.{has_ref}
use belcoin.Verify.Effect.{verify_txn-IsSound}
use belcoin.Block.{
  count_accepted, count_processed, begin_block, enqueue, drop_block, accept_txn, process_txn,
  finish_block, process_block, release, release_if_due, update_pend, add_block_to_queue,
}

module _ ⦃E : Env⦄ where
  open E use {wrappers as W, transactions as T}

  -- The invariant reads the databases, the list of the mempool and the index of the ledger only.
  pub IsSound-same :
      (s s' : Node)
      → IsSound s
      → s'.db ≡ s.db
      → s'.pend ≡ s.pend
      → s'.mempool ≡ s.mempool
      → s'.mempool_list ≡ s.mempool_list
      → s'.pub_outs ≡ s.pub_outs
      → IsSound s'
  IsSound-same s s' h a b c d x = record {
    keyed = λ k w e. h.keyed k w (ap (λ x. W.get x k) (sym a) ∙ e);
    sized = λ k w e. h.sized k w (ap (λ x. W.get x k) (sym a) ∙ e);
    pend_keyed = λ k w e. h.pend_keyed k w (ap (λ x. W.get x k) (sym b) ∙ e);
    pool_keyed = λ k t e. h.pool_keyed k t (ap (λ x. T.get x k) (sym c) ∙ e);
    pooled = λ k e n. h.pooled k (ap (elem k) (sym d) ∙ e) (ap (λ x. T.get x k) (sym c) ∙ n);
    once = subst Once (sym d) h.once;
    indexed = λ p r.
        ap (λ index. has_ref index p r) x
        ∙ h.indexed p r
        ∙ ap (λ db. owned_by (W.get db r.0) p r.1) (sym a);
  }

  count_accepted-IsSound : (s : Node) → IsSound s → IsSound (count_accepted s)
  unfolding count_accepted
  count_accepted-IsSound s h = IsSound-same s _ h refl refl refl refl refl

  count_processed-IsSound : (s : Node) → IsSound s → IsSound (count_processed s)
  unfolding count_processed
  count_processed-IsSound s h = IsSound-same s _ h refl refl refl refl refl

  begin_block-IsSound : (s : Node) → IsSound s → IsSound (begin_block s)
  unfolding begin_block
  begin_block-IsSound s h = IsSound-same s _ h refl refl refl refl refl

  enqueue-IsSound : (block : Block) (s : Node) → IsSound s → IsSound (enqueue block s)
  unfolding enqueue
  enqueue-IsSound block s h = IsSound-same s _ h refl refl refl refl refl

  drop_block-IsSound : (queue : List Block) → Keeps IsSound (drop_block queue)
  unfolding drop_block
  drop_block-IsSound [] = Keeps-raise index_error
  drop_block-IsSound (_ ∷ queue) =
      Keeps-modify _ (λ s h. IsSound-same s _ h refl refl refl refl refl)

  ruleset sound_rules = (
    keeps_rules, write_txn_to_pend-IsSound, del_from_pending-IsSound, verify_txn-IsSound,
    remove_from_mempool-IsSound, count_accepted-IsSound, count_processed-IsSound,
    begin_block-IsSound, enqueue-IsSound, drop_block-IsSound,
  )

  accept_txn-IsSound :
      (txn : Transaction) (s : Node)
      → IsSound s
      → W.get s.db txn.txid ≡ none
      → IsSound (accept_txn txn s).1
  unfolding accept_txn
  accept_txn-IsSound txn s h fresh =
      bind-at
        (if txn.timelock == 0
          then write_txn_to_db txn s.current_time
          else write_txn_to_pend txn s.current_time)
        (λ _. modify count_accepted) s (written (txn.timelock == 0))
        (λ _. Keeps-modify count_accepted count_accepted-IsSound)
    where
      written :
          (t : Bool)
          → IsSound
              ((if t
                  then write_txn_to_db txn s.current_time
                  else write_txn_to_pend txn s.current_time)
                s).1
      written true = write_txn_to_db-IsSound txn s.current_time s h fresh
      written false = (write_txn_to_pend-IsSound txn s.current_time).at s h

  -- What follows the verification in `process_txn`.
  after_verify-IsSound :
      (txid : Bytes) (txn : Transaction)
      → Keeps IsSound (
          verify_txn true txn >>= λ valid. (if valid then accept_txn txn else pure tt) >>= λ _.
          modify count_processed >>= λ _. modify (remove_from_mempool txid))
  after_verify-IsSound txid txn =
      verify_txn-then-IsSound true txn
        (λ valid. (if valid then accept_txn txn else pure tt) >>= λ _.
          modify count_processed >>= λ _. modify (remove_from_mempool txid))
        (λ s h fresh.
          bind-at {P = IsSound} (accept_txn txn)
            (λ _. modify count_processed >>= λ _. modify (remove_from_mempool txid)) s
            (accept_txn-IsSound txn s h fresh) (λ _. search sound_rules))
        (search sound_rules)

  pub process_txn-IsSound : (txid : Bytes) → Keeps IsSound (process_txn txid)
  unfolding process_txn
  process_txn-IsSound txid = search (sound_rules, after_verify-IsSound) depth 9

  finish_block-IsSound : Keeps IsSound finish_block
  unfolding finish_block
  finish_block-IsSound = search sound_rules

  pub process_block-IsSound : (block : List Bytes) → Keeps IsSound (process_block block)
  unfolding process_block
  process_block-IsSound block = search (sound_rules, process_txn-IsSound, finish_block-IsSound)

  release-IsSound : (w : TxnWrapper) → Keeps IsSound (release w)
  unfolding release
  release-IsSound w =
      Keeps-bind (modify (del_from_pending w.txn)) _
        (Keeps-modify _ (del_from_pending-IsSound w.txn))
        (λ _.
          verify_txn-then-IsSound false w.txn
            (λ valid. if valid then write_txn_to_db w.txn w.timestamp else pure tt)
            (write_txn_to_db-IsSound w.txn w.timestamp) (Keeps-pure tt))

  release_if_due-IsSound : (e : Bytes × TxnWrapper) → Keeps IsSound (release_if_due e)
  unfolding release_if_due
  release_if_due-IsSound (k, w) = search (sound_rules, release-IsSound)

  update_pend-IsSound : Keeps IsSound update_pend
  unfolding update_pend
  update_pend-IsSound = search (sound_rules, release_if_due-IsSound)

  pub add_block_to_queue-IsSound : (block : Block) → Keeps IsSound (add_block_to_queue block)
  unfolding add_block_to_queue
  add_block_to_queue-IsSound block = search (sound_rules, update_pend-IsSound)
