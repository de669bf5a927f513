-- ===== src/Raft/Tick.antt =====
-- One tick (pysyncobjbc/syncobj.py, `_onTick` and `__doApplyCommand`), without what
-- belcoin does in the leader's tick before it looks at the log (`Propose`) and without the polling of
-- the connections. Times are in milliseconds.
pub mod Commit
pub mod Apply
use belcoin.Prelude.{
  ℕ, zero, suc, ◌+◌, ◌-◌, Bool, true, false, not, ◌&&◌, ◌||◌, Option, none, some, List, [], ◌∷◌,
  ltb, leb, ◌==◌, if◌then◌else◌, elem,
}
use belcoin.Exec.{
  Exec, pure, raise, gets, or_raise, modify, for_each, ◌>>=◌, ◌>>◌, key_error, type_error,
  decode_error,
}
use belcoin.Dict.{Dict, lookup, without}
use belcoin.Codec.{Octets}
use belcoin.Raft.{
  Addr, Entry, Setup, Peer, Clock, FailReason, success, discarded, follower, is_leader, regular,
  version, call,
}
use belcoin.Raft.Log.{current_log_index, get_entries_count}
use belcoin.Raft.Append.{send_append_entries}
use belcoin.Raft.Election.{is_majority, election_tick}
use belcoin.Raft.Commands.{waiting_at, check_commands_to_apply}

-- How many of the nodes have `p` of their value in `d`; `none` if one has none (a KeyError)
unfoldable pub count_where : (ℕ → Bool) → List Addr → Dict ℕ → Option ℕ
count_where p [] d = some 0
count_where p (addr ∷ more) d = elim (lookup addr d) [
  | none ↦ none
  | some v ↦ elim (count_where p more d) [ none ↦ none | some n ↦ some (if p v then n + 1 else n) ]
]

-- The loop over the commit index, from commit index `commit`. Each round raises it, so `last - commit` rounds are
-- enough.
unfoldable pub commit_loop : ℕ → ℕ → ℕ → List Addr → Dict ℕ → Option ℕ
unfolding count_where
commit_loop zero last commit nodes match = some commit
commit_loop (suc fuel) last commit nodes match = elim (ltb commit last) [
  | false ↦ some commit
  | true ↦ elim (count_where (leb (commit + 1)) nodes match) [
    | none ↦ none
    | some n ↦ elim (is_majority (n + 1) nodes) [
      | true ↦ commit_loop fuel last (commit + 1) nodes match
      | false ↦ some commit
    ]
  ]
]

abbrev pub opt_eq : ℕ → Option ℕ → Bool
opt_eq n none = false
opt_eq n (some m) = n == m

module _ ⦃C : Setup⦄ where
  unfoldable pub advance_commit : Exec Peer (Unit {0})
  unfolding commit_loop
  advance_commit = do
    s ← gets λ s. s
    let last = current_log_index s.raft_log
    commit ←
        or_raise
          (commit_loop (last - s.raft_commit_index) last s.raft_commit_index s.nodes
            s.raft_match_index)
          key_error
    modify λ s. record s { raft_commit_index = commit; leader_commit_index = some commit }

  -- Without answers from a majority a leader steps down.
  unfoldable pub fall_back : Clock → Exec Peer (Unit {0})
  unfolding count_where
  fall_back clock = do
    s ← gets λ s. s
    n ←
        or_raise
          (count_where (λ heard. ltb clock.now (heard + C.leader_fallback_timeout)) s.nodes
            s.last_response_time)
          key_error
    if is_majority (n + 1) s.nodes
        then pure tt
        else modify (λ s. record s { raft_state = follower; raft_leader = none })

  unfoldable pub lead_tick : Clock → Exec Peer (Unit {0})
  unfolding advance_commit fall_back
  lead_tick clock = do
    s ← gets λ s. s
    if is_leader s.raft_state then (advance_commit >> fall_back clock) else pure tt

  unfoldable pub set_version : ℕ → Exec Peer Bool
  set_version ver = do
    s ← gets λ s. s
    if ltb s.self_code_version ver
        then pure false
        else (modify (λ s. record s { enabled_code_version = ver }) >> pure true)

  unfoldable pub switch_version : Octets → Exec Peer Bool
  unfolding set_version
  switch_version payload = or_raise (C.loads_version payload) decode_error >>= set_version

  unfoldable pub call_method : Octets → Exec Peer Bool
  call_method payload =
      if C.is_call payload
      then (modify (λ s. record s { applied = payload ∷ s.applied }) >> pure true)
      else raise decode_error

  -- `false` stands for SyncObjExceptionWrongVer.
  unfoldable pub do_apply_command : Octets → Exec Peer Bool
  unfolding switch_version call_method
  do_apply_command [] = raise type_error
  do_apply_command (kind ∷ payload) =
      if kind == version
      then switch_version payload
      else if kind == regular
      then call_method payload
      else pure true

  -- Those who wait for the entry at this place learn whether it is theirs.
  unfoldable pub tell_all : ℕ → List (ℕ × ℕ) → Peer → Peer
  unfolding call
  tell_all term [] s = s
  tell_all term ((t, f) ∷ more) s =
      tell_all term more (call f (if t == term then success else discarded) s)

  unfoldable pub finish_entry : ℕ → List (ℕ × ℕ) → Peer → Peer
  unfolding tell_all
  finish_entry term fs s0 =
      let s = tell_all term fs s0 in record s { raft_last_applied = s.raft_last_applied + 1 }

  unfoldable pub apply_entry : Entry → Exec Peer (Unit {0})
  unfolding do_apply_command finish_entry
  apply_entry e = do
    fs ← gets λ s. waiting_at e.idx s.commands_waiting_commit
    modify λ s. record s { commands_waiting_commit = without e.idx s.commands_waiting_commit }
    done ← do_apply_command e.command
    if done then modify (finish_entry e.term fs) else pure tt

  -- The result is `needSendAppendEntries`.
  unfoldable pub apply_tick : Exec Peer Bool
  unfolding apply_entry for_each get_entries_count
  apply_tick = do
    s ← gets λ s. s
    if ltb s.raft_last_applied s.raft_commit_index
        then (for_each
              (get_entries_count (s.raft_last_applied + 1)
                (s.raft_commit_index - s.raft_last_applied) s.raft_log)
              apply_entry
            >> pure (not C.use_batch))
        else pure false

  unfoldable pub append_tick : Clock → Bool → Exec Peer (Unit {0})
  unfolding send_append_entries
  append_tick clock need = do
    s ← gets λ s. s
    if is_leader s.raft_state && (ltb s.new_append_entries_time clock.now || need)
        then send_append_entries clock
        else pure tt

  unfoldable pub check_ready : Peer → Peer
  check_ready s =
      if not s.on_ready_called && opt_eq s.raft_last_applied s.leader_commit_index
      then record s { on_ready_called = true }
      else s

  -- A list without the closed connections is made, and not kept. The indexes are keyed by addresses, so
  -- `pop(node, None)` takes nothing out. `node._destroy()` is called only where the node is not connected:
  -- it is not in `connected`, and stays out, since a read-only node that comes back is a new one.
  unfoldable pub check_readonly : Clock → Peer → Peer
  check_readonly clock s =
      if ltb (s.last_readonly_check + 1000) clock.now
      then record s { last_readonly_check = clock.now }
      else s

  unfoldable pub on_tick : Clock → Exec Peer (Unit {0})
  unfolding election_tick lead_tick apply_tick append_tick check_ready check_commands_to_apply
      check_readonly
  on_tick clock = do
    election_tick clock
    lead_tick clock
    need ← apply_tick
    append_tick clock need
    modify check_ready
    check_commands_to_apply clock clock.command_rounds
    modify (check_readonly clock)
