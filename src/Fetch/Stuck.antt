-- ===== src/Fetch/Stuck.antt =====
-- Blocks and replies that stop a node or make it lose a block.
use belcoin.Prelude.{
  ℕ, ◌≡◌, refl, Bool, true, false, none, some, List, [], ◌∷◌, arith, All, ◌⊎◌, inl, inr,
  Option-cases,
}
use belcoin.Tesseract.{Bytes, Input, Transaction}
use belcoin.Exec.{ok, err, unbound_local_error, pure, for_each}
use belcoin.State.{Env, Node, Block}
use belcoin.Mempool.{add_to_mempool}
use belcoin.Ledger.{amounts}
use belcoin.Verify.{verify_txn}
use belcoin.Verify.Spendable.{IsSpendable, has_real, coins, verify_inputs_complete}
use belcoin.Verify.Accepts.{start}
use belcoin.Block.{begin_block, finish_block, process_txn, process_block}
use belcoin.Fetch.{
  found, missing_of, take_block, start_block, try_process, add_received, add_reply, resume_or,
  transaction_received,
}

module _ ⦃E : Env⦄ where
  open E use {crypto as C, wrappers as W, transactions as T}

  dummies-IsSpendable :
      (b : Bool) (txn : Transaction) (s : Node) (inps : List Input)
      → has_real inps ≡ false
      → All (IsSpendable b txn s) inps × (coins s inps ≡ 0)
  dummies-IsSpendable b txn s [] h = (tt, refl)
  dummies-IsSpendable b txn s (inp ∷ inps) h =
      let rest = dummies-IsSpendable b txn s inps (ground arith) in
      ((inl (ground arith), rest.0), ground (arith, rest.1))

  -- A new transaction whose inputs are all dummies, or that has none, and whose amounts are zero makes
  -- the verification raise an UnboundLocalError: `check` is read without having been set.
  pub verify_txn-no_real_input :
      (txn : Transaction) (s : Node)
      → W.get s.db txn.txid ≡ none
      → has_real txn.inputs ≡ false
      → amounts txn.outputs ≡ 0
      → verify_txn true txn s ≡ (err unbound_local_error, s)
  unfolding verify_txn
  verify_txn-no_real_input txn s new dummy zero_out =
      let (sp, none_in) = dummies-IsSpendable true txn s txn.inputs dummy in
      ground (arith, verify_inputs_complete true txn s txn.inputs start sp, none_in, new)

  take_begin_db : (block : Block) (s : Node) → (begin_block (take_block block s)).db ≡ s.db
  unfolding begin_block take_block
  take_begin_db block s = refl

  -- A block that begins with such a transaction stops the node: the exception leaves `try_process`
  -- with `processing` set and the block still first in the queue, and every later call of
  -- `try_process` returns at once and changes nothing.
  pub poison_block :
      (s : Node) (block : Block) (queue : List Block) (txn : Transaction) (txid : Bytes)
      (rest : List Bytes)
      → s.processing ≡ false
      → s.block_queue ≡ block ∷ queue
      → block.txns ≡ txid ∷ rest
      → missing_of s block.txns ≡ []
      → T.get s.mempool txid ≡ some txn
      → W.get s.db txn.txid ≡ none
      → has_real txn.inputs ≡ false
      → amounts txn.outputs ≡ 0
      → ((try_process s).0 ≡ err unbound_local_error)
        × ((try_process s).1.block_queue ≡ block ∷ queue)
        × (try_process (try_process s).1 ≡ (ok tt, (try_process s).1))
  unfolding try_process start_block process_block for_each process_txn take_block begin_block
  poison_block s block queue txn txid rest idle q listed complete pooled new dummy zero_out =
      let s2 = begin_block (take_block block s) in
      let v : verify_txn true txn s2 ≡ (err unbound_local_error, s2) =
        verify_txn-no_real_input txn s2 new dummy zero_out in
      (
        ground (arith, v, q, listed, complete, pooled),
        ground (arith, v, q, listed, complete, pooled),
        ground (arith, v, q, listed, complete, pooled),
      )

  add_reply_cases :
      (tx : Transaction) (txid : Bytes) (s : Node)
      → (add_reply (some tx) txid s ≡ (ok tt, s))
        ⊎ (add_reply (some tx) txid s ≡ (ok tt, add_to_mempool tx s))
  unfolding add_reply add_received
  add_reply_cases tx txid s = elim (Option-cases (T.get s.mempool txid)) [
    | inl new ↦ inr (rw new)
    | inr (t, old) ↦ inl (rw old)
  ]

  -- The answer to `resume_or` on such a state.
  resume-drops_block :
      (s : Node) (block : Block) (queue : List Block) (txid : Bytes)
      → s.missing_txns ≡ []
      → s.processing_block ≡ false
      → s.current_block ≡ []
      → s.block_queue ≡ block ∷ queue
      → resume_or (pure tt) txid s ≡ (
        ok tt,
        record s {
          block_queue = queue;
          missing_txns = [];
          current_block = [];
          processing = false;
          processing_block = false;
        },
      )
  unfolding resume_or process_block for_each begin_block finish_block
  resume-drops_block s block queue txid nothing idle done q = ground arith

  -- The answer to a request that comes when its block is finished and nothing is missing takes the
  -- next block out of the queue, without processing one of its transactions: databases, indexes and
  -- counters stay as they are.
  pub late_reply-drops_block :
      (s : Node) (block : Block) (queue : List Block) (tx : Transaction) (i : ℕ) (txid : Bytes)
      → s.missing_txns ≡ []
      → s.processing_block ≡ false
      → s.current_block ≡ []
      → s.block_queue ≡ block ∷ queue
      → let (r, s') = transaction_received (found tx) i txid s in
        (r ≡ ok tt)
        × (s'.block_queue ≡ queue)
        × (s'.db ≡ s.db)
        × (s'.pend ≡ s.pend)
        × (s'.pub_outs ≡ s.pub_outs)
        × (s'.txns_processed ≡ s.txns_processed)
  unfolding transaction_received add_to_mempool
  late_reply-drops_block s block queue tx i txid nothing idle done q =
      elim (add_reply_cases tx txid s) [
        | inl e ↦
            let d = resume-drops_block s block queue txid nothing idle done q in
            (
              ground (arith, e, d),
              ground (arith, e, d),
              ground (arith, e, d),
              ground (arith, e, d),
              ground (arith, e, d),
              ground (arith, e, d),
            )
        | inr e ↦
            let d = resume-drops_block (add_to_mempool tx s) block queue txid nothing idle done q in
            (
              ground (arith, e, d),
              ground (arith, e, d),
              ground (arith, e, d),
              ground (arith, e, d),
              ground (arith, e, d),
              ground (arith, e, d),
            )
      ]
