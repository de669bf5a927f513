-- ===== src/Raft/Commands.antt =====
-- Commands on their way to the log (pysyncobjbc/syncobj.py, `_applyCommand`,
-- `_checkCommandsToApply`, `apply_command` and `apply_command_response` in `_onMessageReceived`,
-- `setCodeVersion`, `addNodeToCluster`, `removeNodeFromCluster`; pysyncobjbc/fast_queue.py).
pub mod Bounds
use belcoin.Prelude.{
  ℕ, zero, suc, ◌+◌, Bool, true, false, not, ◌&&◌, ◌||◌, Option, none, some, List, [], ◌∷◌, ◌++◌,
  ltb, leb, ◌==◌, if◌then◌else◌, length, is_some,
}
use belcoin.Exec.{
  Exec, pure, raise, gets, or_raise, modify, ◌>>=◌, ◌>>◌, key_error, assertion_error,
}
use belcoin.Dict.{Dict, lookup, insert, without}
use belcoin.Codec.{Octets}
use belcoin.Raft.{
  Addr, Entry, Setup, Peer, Clock, Change, Callback, function, request, FailReason, queue_full,
  missing_leader, not_leader, request_denied, command_request, command_logged, command_failed,
  RaftState, leader, is_leader, call, send, call_err_callback,
}
use belcoin.Raft.Log.{current_log_index}
use belcoin.Raft.Append.{send_append_entries}
use belcoin.Raft.Cluster.{parse_change_cluster_request, change_cluster}

-- `self.__commandsWaitingCommit[idx]` of a `defaultdict(list)`
abbrev pub waiting_at : ℕ → Dict (List (ℕ × ℕ)) → List (ℕ × ℕ)
waiting_at idx d = elim (lookup idx d) [ none ↦ [] | some fs ↦ fs ]

-- The test of `FastQueue.put_nowait` for `Queue.Full`
unfoldable pub is_full : ℕ → List (Octets × Option Callback) → Bool
is_full max queue = ltb max (length queue)

module _ ⦃C : Setup⦄ where
  -- `put_nowait`: the queue is full when it is longer than its size.
  unfoldable pub apply_command : Octets → Option Callback → Peer → Peer
  unfolding call_err_callback is_full
  apply_command command callback s =
      if is_full C.commands_queue_size s.commands_queue
      then call_err_callback queue_full callback s
      else record s { commands_queue = s.commands_queue ++ ((command, callback) ∷ []) }

  unfoldable pub wait_commit : ℕ → ℕ → ℕ → Peer → Peer
  wait_commit idx term f s = record s {
    commands_waiting_commit =
        insert idx (waiting_at idx s.commands_waiting_commit ++ ((term, f) ∷ []))
          s.commands_waiting_commit;
  }

  -- Who is told that the command is in the log
  unfoldable pub tell_logged : ℕ → ℕ → Option Callback → Peer → Peer
  unfolding wait_commit send
  tell_logged idx term none s = s
  tell_logged idx term (some (function f)) s = wait_commit idx term f s
  tell_logged idx term (some (request node id)) s = send node (command_logged id idx term) s

  unfoldable pub log_command : Octets → Option Callback → Peer → Peer
  unfolding tell_logged
  log_command command callback s =
      let idx = current_log_index s.raft_log + 1 in
      let term = s.raft_current_term in
      tell_logged idx term callback (record s {
        raft_log = s.raft_log ++ (record { command = command; idx = idx; term = term } ∷ []);
      })

  -- Whether a leader takes the command: a change of the cluster is made at once, or denied.
  unfoldable pub admit_change : Clock → Option Change → Exec Peer Bool
  unfolding change_cluster
  admit_change clock none = pure true
  admit_change clock (some change) = change_cluster clock change

  unfoldable pub admit : Clock → Octets → Exec Peer Bool
  unfolding parse_change_cluster_request admit_change
  admit clock command =
      if C.dynamic_membership
      then (parse_change_cluster_request command >>= admit_change clock)
      else pure true

  unfoldable pub lead_if : Clock → Octets → Option Callback → Bool → Exec Peer (Unit {0})
  unfolding log_command send_append_entries call_err_callback
  lead_if clock command callback true =
      modify (log_command command callback)
      >> (if C.use_batch then pure tt else send_append_entries clock)
  lead_if clock command callback false = modify (call_err_callback request_denied callback)

  unfoldable pub lead_command : Clock → Octets → Option Callback → Exec Peer (Unit {0})
  unfolding admit lead_if
  lead_command clock command callback = admit clock command >>= lead_if clock command callback

  -- A node that does not lead sends the command to its leader.
  unfoldable pub forward_command : Addr → Octets → Option Callback → Peer → Peer
  unfolding send
  forward_command to command none s = send to (command_request command none) s
  forward_command to command (some (function f)) s0 =
      let id = s0.commands_local_counter + 1 in
      let s = record s0 {
        commands_local_counter = id;
        commands_waiting_reply = insert id f s0.commands_waiting_reply;
      } in
      send to (command_request command (some id)) s
  forward_command to command (some (request node id)) s = send node (command_failed id not_leader) s

  unfoldable pub forward_or_fail : Option Addr → Octets → Option Callback → Peer → Peer
  unfolding forward_command call_err_callback
  forward_or_fail none command callback s = call_err_callback missing_leader callback s
  forward_or_fail (some to) command callback s = forward_command to command callback s

  unfoldable pub pass_command : Clock → Octets → Option Callback → Exec Peer (Unit {0})
  unfolding lead_command forward_or_fail
  pass_command clock command callback = do
    s ← gets λ s. s
    if is_leader s.raft_state
        then lead_command clock command callback
        else modify (forward_or_fail s.raft_leader command callback)

  -- `get_nowait`, and what is done with the command before the other rounds, `rest`
  unfoldable pub next_command :
      Clock → Exec Peer (Unit {0}) → List (Octets × Option Callback) → Exec Peer (Unit {0})
  unfolding pass_command
  next_command clock rest [] = pure tt
  next_command clock rest ((command, callback) ∷ queue) = do
    modify λ s. record s { commands_queue = queue }
    pass_command clock command callback
    rest

  -- The loop, for as many rounds as there is time
  unfoldable pub check_commands_to_apply : Clock → ℕ → Exec Peer (Unit {0})
  unfolding next_command
  check_commands_to_apply clock zero = pure tt
  check_commands_to_apply clock (suc rounds) = do
    s ← gets λ s. s
    if not (is_some s.raft_leader) && C.commands_wait_leader
        then pure tt
        else next_command clock (check_commands_to_apply clock rounds) s.commands_queue

  unfoldable pub on_command_request : Addr → Octets → Option ℕ → Peer → Peer
  unfolding apply_command
  on_command_request from command none s = apply_command command none s
  on_command_request from command (some id) s = apply_command command (some (request from id)) s

  -- `self.__commandsWaitingReply.pop(requestID, None)`
  unfoldable pub take_reply : ℕ → Peer → Option ℕ × Peer
  take_reply id s = (
    lookup id s.commands_waiting_reply,
    record s { commands_waiting_reply = without id s.commands_waiting_reply },
  )

  unfoldable pub on_command_failed : ℕ → FailReason → Peer → Peer
  unfolding take_reply call
  on_command_failed id why s = elim (take_reply id s).0 [
    | none ↦ (take_reply id s).1
    | some f ↦ call f why (take_reply id s).1
  ]

  -- `assert idx > self.__raftLastApplied`
  unfoldable pub on_command_logged : ℕ → ℕ → ℕ → Exec Peer (Unit {0})
  unfolding take_reply wait_commit
  on_command_logged id idx term = do
    got ← gets λ s. (take_reply id s).0
    modify λ s. (take_reply id s).1
    applied ← gets λ s. s.raft_last_applied
    elim got [
      | none ↦ pure tt
      | some f ↦ if ltb applied idx then modify (wait_commit idx term f) else raise assertion_error
    ]
