-- ===== src/Propose.antt =====
-- How the leader makes blocks: `send_block` of belcoin_node/storage.py and the part of `_onTick` that
-- belcoin adds to pysyncobjbc/syncobj.py.
pub mod Safety
use belcoin.Prelude.{
  ℕ, ◌+◌, Bool, true, not, ◌&&◌, ◌||◌, List, [], ◌∷◌, ltb, leb, if◌then◌else◌, elem, length, take,
}
use belcoin.Tesseract.{Bytes}
use belcoin.Config.{block_size, block_timeout}
use belcoin.State.{Env, Node, Block, propose}

-- `len(set(xs) & set(ys)) == 0`
abbrev pub disjoint : List Bytes → List Bytes → Bool
disjoint [] ys = true
disjoint (x ∷ xs) ys = not (elem x ys) && disjoint xs ys

module _ ⦃E : Env⦄ where
  -- `time` is what `time.time()` returns, the same at both calls
  unfoldable pub next_block : ℕ → Node → Block
  next_block time s = record {
    time = if ltb s.current_time time then time else s.current_time;
    txns = take block_size s.mempool_list;
  }

  unfoldable pub send_block : ℕ → Node → Node
  send_block time s =
      let block = next_block time s in
      if disjoint block.txns s.current_block then record s { sent = propose block ∷ s.sent } else s

  unfoldable pub is_due : Node → Bool
  is_due s =
      (leb block_timeout s.tickctr && ltb 0 (length s.mempool_list))
      || leb block_size (length s.mempool_list)

  -- What a leader does in one tick before it looks at the log.
  unfoldable pub leader_tick : ℕ → Node → Node
  leader_tick time s0 =
      let s = record s0 { tickctr = s0.tickctr + 1 } in
      if is_due s && (not s.processing && (not s.adding_block && not s.testing))
      then (let s' = send_block time (record s { adding_block = true }) in
          record s' { tickctr = 0 })
      else s
