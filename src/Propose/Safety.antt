-- ===== src/Propose/Safety.antt =====
-- What the leader proposes (belcoin_node/storage.py, `send_block`; pysyncobjbc/syncobj.py, `_onTick`).
use belcoin.Prelude.{
  ℕ, ◌+◌, ◌≤◌, ◌<◌, ◌≡◌, refl, true, false, not, ◌&&◌, List, [], ◌∷◌, arith, ◌⊎◌, inl, inr, elem,
  length, take, zero, suc, Bool-cases,
}
use belcoin.Tesseract.{Bytes}
use belcoin.Config.{block_size}
use belcoin.State.{Env, Node, Block, propose}
use belcoin.Propose.{disjoint, next_block, send_block, is_due, leader_tick}

length-take : (n : ℕ) (xs : List Bytes) → length (take n xs) ≤ n
length-take zero xs = omega arith
length-take (suc n) [] = omega arith
length-take (suc n) (x ∷ xs) = omega (arith, length-take n xs)

take_some : (n : ℕ) (xs : List Bytes) → 0 < n → 0 < length xs → 0 < length (take n xs)
take_some zero xs h k = absurd (omega arith)
take_some (suc n) [] h k = k
take_some (suc n) (x ∷ xs) h k = omega arith

disjoint_lem :
    (xs ys : List Bytes) (k : Bytes) → disjoint xs ys ≡ true → elem k xs ≡ true → elem k ys ≡ false
disjoint_lem [] ys k d e = cc
disjoint_lem (x ∷ xs) ys k d e = ground (arith, disjoint_lem xs ys k)

module _ ⦃E : Env⦄ where
  -- A block that may be proposed by a node at a time: the first hashes of its mempool, one at least and
  -- at most `block_size`, none of them in the block that it processes, with a time that is not before
  -- its own.
  pub record IsProposal (time : ℕ) (s : Node) (b : Block) : Type 0 where
    pub first : b.txns ≡ take block_size s.mempool_list
    pub some_txn : 0 < length b.txns
    pub bounded : length b.txns ≤ block_size
    pub later : s.current_time ≤ b.time
    pub new : (k : Bytes) → elem k b.txns ≡ true → elem k s.current_block ≡ false
    pub idle : s.processing ≡ false
    pub first_one : s.adding_block ≡ false

  due_some : (s : Node) → is_due s ≡ true → 0 < length s.mempool_list
  unfolding is_due
  due_some s h = ground arith

  next-IsProposal :
      (time : ℕ) (s : Node)
      → 0 < length s.mempool_list
      → disjoint (next_block time s).txns s.current_block ≡ true
      → s.processing ≡ false
      → s.adding_block ≡ false
      → IsProposal time s (next_block time s)
  unfolding next_block
  next-IsProposal time s queued d idle adding = record {
    first = refl;
    some_txn = take_some block_size s.mempool_list (omega arith) queued;
    bounded = length-take block_size s.mempool_list;
    later = ground arith;
    new = λ k e. disjoint_lem (take block_size s.mempool_list) s.current_block k d e;
    idle = idle;
    first_one = adding;
  }

  -- A tick makes at most one proposal. It is made only by a node that neither processes a block nor
  -- waits for one that it has proposed, and it is well formed.
  pub leader_tick-IsProposal :
      (time : ℕ) (s : Node)
      → ((leader_tick time s).sent ≡ s.sent)
        ⊎ ((b : Block) × ((leader_tick time s).sent ≡ propose b ∷ s.sent)
            × ((leader_tick time s).adding_block ≡ true)
            × IsProposal time s b)
  unfolding leader_tick send_block next_block is_due
  leader_tick-IsProposal time s =
      let s1 = record s { tickctr = s.tickctr + 1 } in
      elim (Bool-cases (is_due s1 && (not s.processing && (not s.adding_block && not s.testing)))) [
        | inl due ↦ elim (Bool-cases (disjoint (next_block time s).txns s.current_block)) [
          | inl new ↦ inr (
            next_block time s,
            rw due (rw new refl),
            rw due (rw new refl),
            next-IsProposal time s (due_some s1 (ground arith)) new (ground arith) (ground arith),
          )
          | inr overlap ↦ inl (rw due (rw overlap refl))
        ]
        | inr waits ↦ inl (rw waits refl)
      ]
