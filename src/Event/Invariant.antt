-- ===== src/Event/Invariant.antt =====
-- The invariant of a node over any sequence of events.
use belcoin.Prelude.{ℕ, ◌+◌, refl, Bool, true, false, List, [], ◌∷◌, All, if◌then◌else◌}
use belcoin.State.{Env, Node}
use belcoin.Mempool.Sound.{IsSound}
use belcoin.Block.Sound.{IsSound-same, add_block_to_queue-IsSound}
use belcoin.Fetch.Sound.{Answers, try_process-IsSound, on_reply-IsSound}
use belcoin.Propose.{send_block, next_block, disjoint, leader_tick}
use belcoin.Rpc.Sound.{jsonrpc_puttxn-IsSound, jsonrpc_puttxn_batch-IsSound}
use belcoin.Event.{
  Event, commit, loop, reply, put, put_batch, lead, Process, on_commit, on_loop, step, run,
}

-- A reply holds the transaction that was asked for.
abbrev pub IsHonest : Event → Type 0
IsHonest (commit block) = Unit
IsHonest loop = Unit
IsHonest (reply r i txid) = Answers r txid
IsHonest (put tx b) = Unit
IsHonest (put_batch txns b) = Unit
IsHonest (lead time) = Unit

module _ ⦃E : Env⦄ where
  if-IsSound : (t : Bool) (s s' : Node) → IsSound s → IsSound s' → IsSound (if t then s else s')
  if-IsSound true s s' h h' = h
  if-IsSound false s s' h h' = h'

  send_block-IsSound : (time : ℕ) (s : Node) → IsSound s → IsSound (send_block time s)
  unfolding send_block
  send_block-IsSound time s h =
      if-IsSound (disjoint (next_block time s).txns s.current_block) _ s
        (IsSound-same s _ h refl refl refl refl refl) h

  leader_tick-IsSound : (time : ℕ) (s : Node) → IsSound s → IsSound (leader_tick time s)
  unfolding leader_tick
  leader_tick-IsSound time s h =
      let s1 = record s { tickctr = s.tickctr + 1 } in
      let s2 = send_block time (record s1 { adding_block = true }) in
      if-IsSound _ (record s2 { tickctr = 0 }) s1
        (IsSound-same s2 _ (send_block-IsSound time _ (IsSound-same s _ h refl refl refl refl refl))
          refl refl refl refl refl)
        (IsSound-same s _ h refl refl refl refl refl)

  node_if :
      (t : Bool) (p q : Process)
      → IsSound p.node
      → IsSound q.node
      → IsSound (if t then p else q).node
  node_if true p q h h' = h
  node_if false p q h h' = h'

  step-IsSound : (e : Event) (p : Process) → IsHonest e → IsSound p.node → IsSound (step e p).node
  unfolding step on_commit on_loop
  step-IsSound (commit block) p a h =
      node_if p.ticking _ p ((add_block_to_queue-IsSound block).at p.node h) h
  step-IsSound loop p a h = node_if p.looping _ p (try_process-IsSound.at p.node h) h
  step-IsSound (reply r i txid) p a h = (on_reply-IsSound r i txid a).at p.node h
  step-IsSound (put tx b) p a h = jsonrpc_puttxn-IsSound tx b p.node h
  step-IsSound (put_batch txns b) p a h = jsonrpc_puttxn_batch-IsSound txns b p.node h
  step-IsSound (lead time) p a h = node_if p.ticking _ p (leader_tick-IsSound time p.node h) h

  -- Whatever events reach a node, in whatever order and whichever of them raise, where each handler
  -- ends before another starts, also one of the other thread: if every reply holds the
  -- transaction that was asked for, a sound state stays sound. The databases hold each
  -- transaction under its own hash with one flag for each output, the list of the mempool names no
  -- transaction twice and only such as are in the mempool, and the balance index lists for each key
  -- exactly the unspent outputs of the ledger that name it.
  pub run-IsSound :
      (es : List Event) (p : Process) → All IsHonest es → IsSound p.node → IsSound (run es p).node
  unfolding run
  run-IsSound [] p a h = h
  run-IsSound (e ∷ es) p (a, rest) h = run-IsSound es (step e p) rest (step-IsSound e p a h)
