-- ===== src/Block/Progress.antt =====
-- A block whose transactions are all there, and have no dummy inputs, is processed to its end.
use belcoin.Prelude.{
  ◌≡◌, refl, ap, ◌∙◌, Bool, true, false, some, List, [], ◌∷◌, arith, ◌==◌, if◌then◌else◌, elem,
  Once, All,
}
use belcoin.Tesseract.{Bytes, Input, Transaction}
use belcoin.Exec.{Exec, Result, ok, pure, modify, for_each, ◌>>=◌}
use belcoin.Exec.Keeps.{Keeps-bind, keeps_rules}
use belcoin.State.{Env, Node}
use belcoin.Mempool.{remove_from_mempool}
use belcoin.Mempool.Sound.{IsSound}
use belcoin.Ledger.{write_txn_to_db, store_pending, write_txn_to_pend}
use belcoin.Ledger.Spend.{IsPresent, for_each-spend}
use belcoin.Verify.{verify_txn}
use belcoin.Verify.Spendable.{has_real}
use belcoin.Verify.Conserve.{HasNoDummy}
use belcoin.Verify.Effect.{verify_txn-Ending}
use belcoin.Verify.Fresh.{Ending-db}
use belcoin.Verify.Spending.{write_txn_to_db-unspent}
use belcoin.Verify.Total.{verify_txn-returns, accepted-IsPresent}
use belcoin.Block.{count_accepted, count_processed, accept_txn, process_txn}
use belcoin.Block.Beside.{
  Beside, remove-Beside, count_processed-Beside, accept_txn-Beside, verify_txn-Beside,
}
use belcoin.Block.Sound.{process_txn-IsSound}

bind_ok :
    {S A B : Type 0} (m : Exec S A) (f : A → Exec S B) (s : S) (a : A)
    → (m s).0 ≡ ok a
    → (m >>= f) s ≡ f a (m s).1
bind_ok m f s a e = ap (λ r. ◌>>=◌ (λ z. (r, (m s).1)) f s) e

module _ ⦃E : Env⦄ where
  open E use {wrappers as W, transactions as T}

  -- The transaction has an input, and none that is a dummy.
  abbrev pub IsPlain : Transaction → Type 0
  IsPlain txn = HasNoDummy txn.inputs × (has_real txn.inputs ≡ true)

  All-IsPresent :
      (s s' : Node) (inps : List Input)
      → s'.db ≡ s.db
      → All (IsPresent s) inps
      → All (IsPresent s') inps
  All-IsPresent s s' [] e h = tt
  All-IsPresent s s' (inp ∷ inps) e ((w, o, stored, listed, inside), h) =
      ((w, o, ap (λ d. W.get d inp.txid) e ∙ stored, listed, inside), All-IsPresent s s' inps e h)

  accept_txn-returns :
      (txn : Transaction) (s : Node) → All (IsPresent s) txn.inputs → (accept_txn txn s).0 ≡ ok tt
  unfolding accept_txn write_txn_to_pend store_pending
  accept_txn-returns txn s h =
      ap (λ q. q.0)
        (bind_ok (written (txn.timelock == 0)) (λ _. modify count_accepted) s tt
          (returns (txn.timelock == 0)))
    where
      written : Bool → Exec Node (Unit {0})
      written t =
          if t then write_txn_to_db txn s.current_time else write_txn_to_pend txn s.current_time

      returns : (t : Bool) → (written t s).0 ≡ ok tt
      returns true = (write_txn_to_db-unspent txn s.current_time s h).0
      returns false =
          let (s', e, _) =
            for_each-spend txn.inputs (store_pending txn s.current_time s)
              (All-IsPresent s (store_pending txn s.current_time s) txn.inputs refl h) in
          ap (λ q. q.0) e

  -- The rest of `process_txn` after the verification.
  abbrev after_verify : Bytes → Transaction → Bool → Exec Node (Unit {0})
  after_verify txid txn valid = (if valid then accept_txn txn else pure tt) >>= λ _.
      modify count_processed >>= λ _. modify (remove_from_mempool txid)

  process_txn-returns :
      (txid : Bytes) (txn : Transaction) (s : Node)
      → IsSound s
      → T.get s.mempool txid ≡ some txn
      → IsPlain txn
      → (process_txn txid s).0 ≡ ok tt
  unfolding process_txn
  process_txn-returns txid txn s h pooled (no_dummy, real) =
      let (b, e) = verify_txn-returns txn s h real in
      rw pooled
        (ap (λ q. q.0) (bind_ok (verify_txn true txn) (after_verify txid txn) s b e) ∙ returns b e)
    where
      s1 : Node
      s1 = (verify_txn true txn s).1

      returns :
          (b : Bool) → (verify_txn true txn s).0 ≡ ok b → (after_verify txid txn b s1).0 ≡ ok tt
      returns false e = refl
      returns true e =
          ap (λ q. q.0)
            (bind_ok (accept_txn txn)
              (λ _. modify count_processed >>= λ _. modify (remove_from_mempool txid)) s1 tt
              (accept_txn-returns txn s1 (
                All-IsPresent s s1 txn.inputs
                  (Ending-db true txn s (verify_txn true txn s) (verify_txn-Ending true txn s))
                  (accepted-IsPresent txn s h no_dummy e))))

  process_txn-Beside :
      (txid : Bytes) (txn : Transaction) (s : Node)
      → T.get s.mempool txid ≡ some txn
      → txn.txid ≡ txid
      → Beside txid s (process_txn txid s).1
  unfolding process_txn
  process_txn-Beside txid txn s pooled same = rw pooled (
      (Keeps-bind (verify_txn true txn) (after_verify txid txn)
          (verify_txn-Beside txid s true txn same)
          (λ valid.
            search (keeps_rules, accept_txn-Beside, count_processed-Beside, remove-Beside) depth
              9)).at
        s (record { queue = refl; time = refl; pool = λ k n. refl }))

  -- The transactions of a block are all in the mempool, each listed once, and plain.
  pub record IsReady (s : Node) (block : List Bytes) : Type 0 where
    pub once : Once block
    pub pooled :
        (k : Bytes)
        → elem k block ≡ true
        → (txn : Transaction) × (T.get s.mempool k ≡ some txn) × IsPlain txn

  -- What the loop over a block leaves behind.
  pub record Ends (s : Node) (r : Result (Unit {0}) × Node) : Type 0 where
    pub returns : r.0 ≡ ok tt
    pub queue : r.1.block_queue ≡ s.block_queue
    pub time : r.1.current_time ≡ s.current_time

  pub block-Ends :
      (block : List Bytes) (s : Node)
      → IsSound s
      → IsReady s block
      → Ends s (for_each block process_txn s)
  unfolding for_each
  block-Ends [] s h r = record { returns = refl; queue = refl; time = refl }
  block-Ends (txid ∷ block) s h r =
      let (txn, pooled, plain) = r.pooled txid (ground arith) in
      let s1 = (process_txn txid s).1 in
      let beside = process_txn-Beside txid txn s pooled (h.pool_keyed txid txn pooled) in
      let rest = block-Ends block s1 ((process_txn-IsSound txid).at s h) (record {
        once = r.once.1;
        pooled = λ k e.
            let (t, there, p) = r.pooled k (ground (arith, e)) in
            (t, beside.pool k (λ same. ground (arith, r.once.0, e, same)) ∙ there, p);
      }) in
      let step =
        bind_ok (process_txn txid) (λ _. for_each block process_txn) s tt
          (process_txn-returns txid txn s h pooled plain) in
      record {
        returns = ap (λ q. q.0) step ∙ rest.returns;
        queue = ap (λ q. q.1.block_queue) step ∙ (rest.queue ∙ beside.queue);
        time = ap (λ q. q.1.current_time) step ∙ (rest.time ∙ beside.time);
      }
