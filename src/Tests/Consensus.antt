-- ===== src/Tests/Consensus.antt =====
-- The theorems on the Raft library, at concrete nodes.
use belcoin.Prelude.{
  ℕ, ◌+◌, ◌-◌, ◌≤◌, ◌≡◌, refl, true, false, Option, none, some, [], ◌∷◌, ◌++◌, if◌then◌else◌, arith,
  inl, length,
}
use belcoin.Exec.{ok}
use belcoin.Codec.{Octets}
use belcoin.Raft.{
  leader, Entry, Setup, Peer, Clock, request_vote, response_vote, append_entries, add_node, regular,
  no_op, function,
}
use belcoin.Raft.Log.{
  first_idx, first_idx, current_log_index, get_entries_count, get_entries_sized,
  get_prev_log_index_term, get_entries, delete_entries_from,
}
use belcoin.Raft.Log.Laws.{up_to, IsLog, Run}
use belcoin.Raft.Send.{chunks}
use belcoin.Raft.Send.Chunks.{receive_all, receive_all-chunks}
use belcoin.Raft.Send.Broken.{receive_all-broken, LoadsLess}
use belcoin.Raft.Follow.{on_append_entries}
use belcoin.Raft.Follow.Replaces.{holds, keep_to, on_append_entries-log}
use belcoin.Raft.Tick.{commit_loop, apply_tick, on_tick}
use belcoin.Raft.Tick.Commit.{IsLast, commit_loop-IsLast}
use belcoin.Raft.Tick.Apply.{calls, waiting, CanApply, apply_tick-applies}
use belcoin.Raft.Cluster.{change_cluster}
use belcoin.Raft.Cluster.Twice.{second_change}
use belcoin.Raft.Commands.{apply_command}
use belcoin.Raft.Commands.Bounds.{apply_command-bounds}
use belcoin.Raft.Handle.{init_sync_obj, on_message, on_new_connection}
use belcoin.Raft.Network.{
  Network, others, update, become, deliver_to, tick, arrive, vote_arrives, connect, Reach, start,
  later,
}
use belcoin.Raft.Network.Safety.{one_leader, raft_log-IsLog}
use belcoin.Raft.Network.Matching.{logs_match}
use belcoin.Journal.{FileJournal, first_record_offset, new_file, add, load}
use belcoin.Journal.Reload.{IsStored, load-add, new-IsStored}

-- Entries are pickled as their place, their term and their command; no bytes are a change or a version.
abbrev dumps : Entry → Octets
dumps e = e.idx ∷ e.term ∷ e.command

abbrev loads : Octets → Option Entry
loads (idx ∷ term ∷ command) = some (record { command = command; idx = idx; term = term })
loads bytes = none

loads-dumps : (e : Entry) → loads (dumps e) ≡ some e
loads-dumps e = refl

abbrev setup : Setup
setup = record {
  batch_bytes = 4;
  use_batch = true;
  dynamic_membership = true;
  commands_wait_leader = true;
  commands_queue_size = 2;
  append_entries_period = 100;
  leader_fallback_timeout = 30000;
  readonly_addr = λ k. k + 100;
  dumps = dumps;
  loads = loads;
  loads-dumps = loads-dumps;
  loads_change = λ b. none;
  loads_version = λ b. none;
  is_call = λ b. true;
  Serializer = Unit {0};
  get_transmission_data = λ s a. (none, s);
  cancel_transmission = λ s a. s;
  set_transmission_data = λ s p. (false, s);
  deserialize = λ s. none;
}

abbrev clock : ℕ → Clock
clock now = record { now = now; timeout = 10; append_rounds = λ a. 2; command_rounds = 3 }

abbrev entry : ℕ → ℕ → Octets → Entry
entry idx term command = record { command = command; idx = idx; term = term }

-- A node 0 of three that has just started
abbrev fresh : Peer ⦃C = setup⦄
unfolding init_sync_obj
fresh = init_sync_obj ⦃C = setup⦄ (clock 0) (some 0) (1 ∷ 2 ∷ []) 0 tt

-- With two more entries, of term 1
abbrev filled : Peer ⦃C = setup⦄
filled = record fresh {
  raft_log = entry 1 0 (no_op ∷ []) ∷ entry 2 1 (no_op ∷ []) ∷ entry 3 1 (regular ∷ 7 ∷ []) ∷ [];
  raft_current_term = 1;
}

on_append_entries-log_example :
    (on_append_entries ⦃C = setup⦄
      (clock 5)
      1
      2
      3
      (some (2, 1))
      (entry 3 2 (no_op ∷ []) ∷ [])
      filled).1.raft_log
    ≡ (if holds 2 1 filled.raft_log
        then keep_to 2 filled.raft_log ++ (entry 3 2 (no_op ∷ []) ∷ [])
        else filled.raft_log)
unfolding init_sync_obj
on_append_entries-log_example =
    on_append_entries-log ⦃C = setup⦄ (clock 5) 1 2 3 2 1 (entry 3 2 (no_op ∷ []) ∷ []) filled
      (omega arith) (refl, refl, (refl, refl, (refl, refl, tt))) (refl, refl, tt)

commit_loop-IsLast_example :
    (c : ℕ) × (commit_loop (5 - 2) 5 2 (1 ∷ 2 ∷ []) ((1, 4) ∷ (2, 2) ∷ []) ≡ some c)
    × IsLast 5 2 c (1 ∷ 2 ∷ []) ((1, 4) ∷ (2, 2) ∷ [])
commit_loop-IsLast_example =
    commit_loop-IsLast 5 2 (1 ∷ 2 ∷ []) ((1, 4) ∷ (2, 2) ∷ []) (omega arith)
      ((4, refl), ((2, refl), tt))

-- Pieces of four bytes: of an entry of eleven with a command of nine, and of one of ten with eight
abbrev eleven : Octets
eleven = 1 ∷ 2 ∷ 3 ∷ 4 ∷ 5 ∷ 6 ∷ 7 ∷ 8 ∷ 9 ∷ 10 ∷ 11 ∷ []

abbrev ten : Octets
ten = 1 ∷ 2 ∷ 3 ∷ 4 ∷ 5 ∷ 6 ∷ 7 ∷ 8 ∷ 9 ∷ 10 ∷ []

receive_all-chunks_example : receive_all [] (chunks 4 9 eleven) ≡ (eleven ∷ [], [])
receive_all-chunks_example =
    receive_all-chunks 4 9 (omega arith) [] eleven (omega arith) (omega arith)
      (λ m two lt. omega arith)

receive_all-broken_example : LoadsLess 10 (receive_all [] (chunks 4 8 ten)).0
receive_all-broken_example =
    receive_all-broken 4 8 (omega arith) [] ten 2 (omega arith) (omega arith) (omega arith)

-- Its three entries are committed, the first one is applied.
abbrev committed : Peer ⦃C = setup⦄
committed = record filled { raft_commit_index = 3 }

apply_tick-applies_example :
    (s' : Peer ⦃C = setup⦄) × (apply_tick ⦃C = setup⦄ committed ≡ (ok false, s'))
    × (s'.raft_last_applied ≡ 3)
    × (s'.applied ≡ calls (waiting ⦃C = setup⦄ committed) [])
    × Run 2 (waiting ⦃C = setup⦄ committed)
    × (length (waiting ⦃C = setup⦄ committed) ≡ 2)
unfolding init_sync_obj get_entries_count
apply_tick-applies_example =
    apply_tick-applies ⦃C = setup⦄ committed (refl, refl, (refl, refl, (refl, refl, tt)))
      (omega arith) (omega arith) (omega arith) (can, (can7, tt))
  where
    can : CanApply ⦃C = setup⦄ 0 (no_op ∷ [])
    can = (λ e. absurd (omega arith), λ e. refl)

    can7 : CanApply ⦃C = setup⦄ 0 (regular ∷ 7 ∷ [])
    can7 = (λ e. absurd (omega arith), λ e. refl)

-- It leads, and its no-op entry is applied.
abbrev leading : Peer ⦃C = setup⦄
leading = record filled { raft_state = leader; noop_idx = some 1 }

second_change_example :
    (t : Peer ⦃C = setup⦄) × (u : Peer ⦃C = setup⦄) × (change_cluster ⦃C = setup⦄
        (clock 5)
        (add_node 8)
        leading
      ≡ (ok true, t))
    × (change_cluster ⦃C = setup⦄ (clock 5) (add_node 9) t ≡ (ok true, u))
    × (u.nodes ≡ (leading.nodes ++ (8 ∷ [])) ++ (9 ∷ []))
    × (u.raft_commit_index ≡ leading.raft_commit_index)
unfolding init_sync_obj
second_change_example =
    second_change ⦃C = setup⦄ (clock 5) 8 9 leading
      (record { free = refl; noop = (1, refl, omega arith) }) (refl, refl) (refl, refl)
      (λ e. omega arith)

apply_command-bounds_example :
    ((apply_command ⦃C = setup⦄ (regular ∷ []) (some (function 5)) fresh).commands_queue
      ≡ (regular ∷ [], some (function 5)) ∷ [])
    × (0 ≤ 3
        → length (apply_command ⦃C = setup⦄ (regular ∷ []) (some (function 5)) fresh).commands_queue
          ≤ 3)
unfolding init_sync_obj
apply_command-bounds_example =
    apply_command-bounds ⦃C = setup⦄ (regular ∷ []) (some (function 5)) fresh

abbrev started : Network (Unit {0})
started = record {
  peers = λ i. init_sync_obj ⦃C = setup⦄ (clock i) (some i) (others 2 i) 0 tt;
  delivered = λ v c t. false;
}

abbrev linked : Network (Unit {0})
linked =
    let one =
      become ⦃C = setup⦄ 2 started 0 (on_new_connection ⦃C = setup⦄ (some 1) (started.peers 0)) in
    become ⦃C = setup⦄ 2 one 1 (on_new_connection ⦃C = setup⦄ (some 0) (one.peers 1))

abbrev asked : Network (Unit {0})
asked =
    let one = become ⦃C = setup⦄ 2 linked 0 (on_tick ⦃C = setup⦄ (clock 20) (linked.peers 0)).1 in
    become ⦃C = setup⦄ 2 one 1
      (on_message ⦃C = setup⦄ (clock 21) 0 (request_vote 1 1 0) (one.peers 1)).1

abbrev elected : Network (Unit {0})
elected = record {
  peers =
      update asked.peers 0
        (on_message ⦃C = setup⦄ (clock 22) 1 (response_vote 1) (asked.peers 0)).1;
  delivered = deliver_to asked.delivered 1 0 1;
}

-- Of two nodes, the first stands for election and gets the vote of the second.
Reach-elected : Reach ⦃C = setup⦄ 2 elected
unfolding on_tick on_message on_new_connection init_sync_obj
Reach-elected =
    let s = start clock (λ i. 0) (λ i. tt) in
    let linked =
      later (later s (connect 0 (some 1) (omega arith))) (connect 1 (some 0) (omega arith)) in
    let stood = later linked (tick 0 (clock 20) (omega arith)) in
    let asked =
      later stood
        (arrive 0 1 (clock 21) (request_vote 1 1 0) (omega arith) (omega arith) tt (inl refl)) in
    later asked
      (vote_arrives 1 0 (clock 22) 1 (omega arith) (omega arith) (omega arith) (inl refl) refl)

one_leader_example : ◌≡◌ {A = ℕ} 0 0
unfolding on_tick on_message on_new_connection init_sync_obj get_entries_sized
one_leader_example =
    one_leader ⦃C = setup⦄ 2 {N = elected} 0 0 Reach-elected (omega arith) (omega arith) refl refl
      refl

raft_log-IsLog_example :
    IsLog (elected.peers 0).raft_log
    × (first_idx (elected.peers 0).raft_log ≤ (elected.peers 0).raft_commit_index)
    × ((elected.peers 0).raft_commit_index ≤ current_log_index (elected.peers 0).raft_log)
raft_log-IsLog_example = raft_log-IsLog ⦃C = setup⦄ 2 {N = elected} 0 Reach-elected (omega arith)

-- The second takes the entry of the first.
abbrev followed : Network (Unit {0})
followed =
    become ⦃C = setup⦄ 2 elected 1
      (on_message ⦃C = setup⦄ (clock 23) 0
        (append_entries 1 1 (some (1, 0)) (entry 2 1 (no_op ∷ []) ∷ [])) (elected.peers 1)).1

Reach-followed : Reach ⦃C = setup⦄ 2 followed
unfolding on_tick on_message on_new_connection init_sync_obj get_entries_sized
    get_prev_log_index_term
Reach-followed = later Reach-elected (
    arrive 0 1 (clock 23) (append_entries 1 1 (some (1, 0)) (entry 2 1 (no_op ∷ []) ∷ []))
      (omega arith) (omega arith) tt (inl refl))

logs_match_example : up_to 2 (followed.peers 0).raft_log ≡ up_to 2 (followed.peers 1).raft_log
unfolding on_tick on_message on_new_connection init_sync_obj get_entries_sized
    get_prev_log_index_term get_entries delete_entries_from
logs_match_example =
    logs_match ⦃C = setup⦄ 2 {N = followed} 0 1 2 (entry 2 1 (no_op ∷ [])) (entry 2 1 (no_op ∷ []))
      [] [] Reach-followed (omega arith) (omega arith) refl refl refl

-- An entry in a new journal file
abbrev empty_journal : FileJournal
empty_journal = record {
  journal_file = new_file;
  journal = [];
  current_offset = first_record_offset;
}

load-add_example :
    (s' : FileJournal) × (add (7 ∷ []) 2 1 empty_journal ≡ (ok tt, s'))
    × (load s'.journal_file ≡ some s')
    × (s'.journal ≡ entry 2 1 (7 ∷ []) ∷ [])
    × IsStored s'
unfolding new_file
load-add_example =
    load-add (entry 2 1 (7 ∷ [])) empty_journal new-IsStored
      (record { place = refl; times = refl; size = refl }) refl (omega arith)
