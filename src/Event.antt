-- ===== src/Event.antt =====
-- What happens to a process of the node, one event after the other. The loop, the answers and the
-- interfaces run in the reactor's thread, Raft's commits and the leader's ticks in SyncObj's own thread
-- (`autoTick` in pysyncobjbc/config.py). Each handler is taken as a whole: the events are in any
-- order, but no handler starts before the one of the other thread has ended. Nothing in the
-- source makes the threads wait for each other; Ledger/Race is about a handler that does start.
-- An exception that leaves a commit ends SyncObj's thread, since `_onTick` does not catch it, and one
-- that leaves `try_process` ends the `LoopingCall`. Any other is logged or answered. The state stays as it
-- is at the exception.
-- (belcoin_node/storage.py: `lc.start` of `__init__`, the callbacks of `req_txn` and the replicated
-- `add_block_to_queue`; belcoin_node/rpcserver.py; pysyncobjbc/syncobj.py: `_autoTickThread`, the
-- application of entries in `_onTick` and the leader's tick.)
pub mod Invariant
use belcoin.Prelude.{ℕ, Bool, true, false, List, [], ◌∷◌, if◌then◌else◌}
use belcoin.Tesseract.{Bytes, Transaction}
use belcoin.Exec.{Exec, Result, ok, err}
use belcoin.State.{Env, Node, Block}
use belcoin.Block.{add_block_to_queue}
use belcoin.Fetch.{Reply, try_process, on_reply}
use belcoin.Propose.{leader_tick}
use belcoin.Rpc.{jsonrpc_puttxn, jsonrpc_puttxn_batch}

pub data Event : Type 0 where
  -- Raft commits a block
  commit : Block → Event
  -- the `LoopingCall` of `try_process`
  loop : Event
  -- the answer to the request for a transaction, with the attempt's number
  reply : Reply → ℕ → Bytes → Event
  put : Transaction → Bool → Event
  put_batch : List Transaction → Bool → Event
  -- a tick of the leader at a time
  lead : ℕ → Event

abbrev pub is_ok : Result (Unit {0}) → Bool
is_ok (ok _) = true
is_ok (err _) = false

module _ ⦃E : Env⦄ where
  -- The node, whether SyncObj's thread runs, and whether the `LoopingCall` does
  pub record Process : Type 0 where
    pub node : Node
    pub ticking : Bool
    pub looping : Bool

  -- A commit in SyncObj's thread
  unfoldable pub on_commit : Block → Process → Process
  on_commit block p =
      let (r, s) = add_block_to_queue block p.node in
      if p.ticking then record p { node = s; ticking = is_ok r } else p

  unfoldable pub on_loop : Process → Process
  on_loop p =
      let (r, s) = try_process p.node in
      if p.looping then record p { node = s; looping = is_ok r } else p

  unfoldable pub step : Event → Process → Process
  unfolding on_commit on_loop
  step (commit block) p = on_commit block p
  step loop p = on_loop p
  step (reply r i txid) p = record p { node = (on_reply r i txid p.node).1 }
  step (put tx b) p = record p { node = (jsonrpc_puttxn tx b p.node).1 }
  step (put_batch txns b) p = record p { node = jsonrpc_puttxn_batch txns b p.node }
  step (lead time) p = if p.ticking then record p { node = leader_tick time p.node } else p

  unfoldable pub run : List Event → Process → Process
  run [] p = p
  run (e ∷ es) p = run es (step e p)
