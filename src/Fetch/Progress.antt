-- ===== src/Fetch/Progress.antt =====
-- An idle node that has the transactions of the next block takes it and processes it to its end.
use belcoin.Prelude.{
  ◌≡◌, refl, ap, ◌∙◌, true, false, some, List, [], ◌∷◌, arith, elem, Once, inl, inr, Option-cases,
}
use belcoin.Tesseract.{Bytes, Transaction}
use belcoin.Exec.{ok, for_each}
use belcoin.State.{Env, Node, Block}
use belcoin.Mempool.Sound.{IsSound}
use belcoin.Block.{begin_block, finish_block, process_txn, process_block}
use belcoin.Block.Sound.{IsSound-same}
use belcoin.Block.Progress.{IsPlain, block-Ends}
use belcoin.Fetch.{missing_of, take_block, start_block, try_process}

module _ ⦃E : Env⦄ where
  open E use {transactions as T}

  missing_none :
      (s : Node) (block : List Bytes) (k : Bytes)
      → missing_of s block ≡ []
      → elem k block ≡ true
      → (txn : Transaction) × (T.get s.mempool k ≡ some txn)
  unfolding missing_of
  missing_none s [] k h e = absurd (cc)
  missing_none s (txid ∷ block) k h e = elim (Option-cases (T.get s.mempool k)) [
    | inr there ↦ there
    | inl absent ↦ elim (Option-cases (T.get s.mempool txid)) [
      | inl missing ↦ absurd (ground (arith, missing))
      | inr (txn, pooled) ↦
          missing_none s block k (ground (arith, pooled)) (ground (arith, pooled, absent))
    ]
  ]

  -- The state in which the loop over the block begins.
  abbrev at_start : Block → Node → Node
  at_start block s = begin_block (take_block block s)

  at_start-IsSound : (block : Block) (s : Node) → IsSound s → IsSound (at_start block s)
  unfolding begin_block take_block
  at_start-IsSound block s h = IsSound-same s _ h refl refl refl refl refl

  at_start-rest :
      (block : Block) (s : Node)
      → ((at_start block s).mempool ≡ s.mempool)
        × ((at_start block s).block_queue ≡ s.block_queue)
        × ((at_start block s).current_time ≡ block.time)
  unfolding begin_block take_block
  at_start-rest block s = (refl, refl, refl)

  -- An idle node in a sound state, with a block at the head of its queue whose transactions are all in
  -- its mempool, each listed once, with inputs none of which is a dummy: `try_process` returns without
  -- an exception, valid or not as the transactions may be, and leaves the node idle at the time of the
  -- block, with the block out of the queue and the blocks behind it kept.
  pub try_process-finishes :
      (s : Node) (block : Block) (queue : List Block)
      → IsSound s
      → s.processing ≡ false
      → s.block_queue ≡ block ∷ queue
      → missing_of s block.txns ≡ []
      → Once block.txns
      → ((k : Bytes) (txn : Transaction)
          → elem k block.txns ≡ true
          → T.get s.mempool k ≡ some txn
          → IsPlain txn)
      → let (r, s') = try_process s in
        (r ≡ ok tt)
        × (s'.block_queue ≡ queue)
        × (s'.processing ≡ false)
        × (s'.processing_block ≡ false)
        × (s'.current_time ≡ block.time)
  unfolding try_process start_block process_block take_block begin_block finish_block
  try_process-finishes s block queue h idle q complete once plain =
      let s2 = at_start block s in
      let (same_pool, same_queue, same_time) = at_start-rest block s in
      let ends = block-Ends block.txns s2 (at_start-IsSound block s h) (record {
        once = once;
        pooled = λ k e.
            let (txn, there) = missing_none s block.txns k complete e in
            (txn, ap (λ d. T.get d k) same_pool ∙ there, plain k txn e there);
      }) in
      let s3 = (for_each block.txns process_txn s2).1 in
      let loop : for_each block.txns process_txn s2 ≡ (ok tt, s3) = λ i. (ends.returns i, s3) in
      let left : s3.block_queue ≡ block ∷ queue = ends.queue ∙ (same_queue ∙ q) in
      let time : s3.current_time ≡ block.time = ends.time ∙ same_time in
      (
        ground (arith, loop, left, time, idle, q, complete),
        ground (arith, loop, left, time, idle, q, complete),
        ground (arith, loop, left, time, idle, q, complete),
        ground (arith, loop, left, time, idle, q, complete),
        ground (arith, loop, left, time, idle, q, complete),
      )
