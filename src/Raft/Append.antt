-- ===== src/Raft/Append.antt =====
-- What a leader sends to each node (pysyncobjbc/syncobj.py, `__sendAppendEntries`).
use belcoin.Prelude.{
  ℕ, zero, suc, ◌+◌, Bool, true, false, ◌||◌, Option, none, some, List, [], ◌∷◌, ◌++◌, ltb, leb,
  if◌then◌else◌, length, elem,
}
use belcoin.Exec.{
  Exec, pure, raise, gets, or_raise, modify, for_each, ◌>>=◌, ◌>>◌, key_error, index_error,
}
use belcoin.Dict.{lookup, insert}
use belcoin.Raft.{Addr, Entry, Setup, Peer, Clock, Part, append_entries, append_dump, node_send}
use belcoin.Raft.Log.{
  current_log_index, first_idx, last_from, get_entries_sized, get_prev_log_index_term,
}
use belcoin.Raft.Send.{chunks, send_chunks}

module _ ⦃C : Setup⦄ where
  unfoldable pub set_next_index : Addr → ℕ → Peer → Peer
  set_next_index to idx s = record s { raft_next_index = insert to idx s.raft_next_index }

  -- One message with the entries, or the pieces of a large entry that is sent alone
  unfoldable pub send_entries : Addr → Option (ℕ × ℕ) → List Entry → Peer → Peer
  unfolding node_send
  send_entries to prev [] s =
      node_send to (append_entries s.raft_current_term s.raft_commit_index prev []) s
  send_entries to prev (e ∷ []) s =
      if leb C.batch_bytes (length e.command)
      then send_chunks to s.raft_current_term s.raft_commit_index prev
          (chunks C.batch_bytes (length e.command) (C.dumps e)) s
      else node_send to (append_entries s.raft_current_term s.raft_commit_index prev (e ∷ [])) s
  send_entries to prev (e ∷ e' ∷ es) s =
      node_send to (append_entries s.raft_current_term s.raft_commit_index prev (e ∷ e' ∷ es)) s

  -- `self.__raftNextIndex[nodeAddr] = entries[-1][1] + 1`
  unfoldable pub move_next_index : Addr → List Entry → Exec Peer (Unit {0})
  unfolding set_next_index
  move_next_index to [] = raise index_error
  move_next_index to (e ∷ es) = modify (set_next_index to ((last_from e es).idx + 1))

  -- The entries from `next` on, after the one before it
  unfoldable pub append_from : Addr → ℕ → Exec Peer (Unit {0})
  unfolding move_next_index send_entries
  append_from to next = do
    log ← gets λ s. s.raft_log
    let prev = get_prev_log_index_term next log
    if leb next (current_log_index log)
        then (move_next_index to (get_entries_sized next C.batch_bytes log)
            >> modify (send_entries to prev (get_entries_sized next C.batch_bytes log)))
        else modify (send_entries to prev [])

  -- `self.__raftNextIndex[nodeAddr] = self.__raftLog[1][1] + 1`
  unfoldable pub skip_dump : Addr → List Entry → Exec Peer (Unit {0})
  unfolding set_next_index
  skip_dump to (e ∷ e' ∷ es) = modify (set_next_index to (e'.idx + 1))
  skip_dump to _ = raise index_error

  -- What follows a part of a dump: the result is `sendingSerialized`
  unfoldable pub after_part : Addr → Option Part → Exec Peer Bool
  unfolding skip_dump
  after_part to none = pure false
  after_part to (some part) =
      if part.is_last
      then (gets (λ s. s.raft_log) >>= λ log. skip_dump to log >> pure false)
      else pure true

  unfoldable pub append_part : Addr → Exec Peer Bool
  unfolding after_part node_send
  append_part to = do
    ser ← gets λ s. s.serializer
    let got = C.get_transmission_data ser to
    modify λ s. record s { serializer = got.1 }
    modify λ s. node_send to (append_dump s.raft_current_term s.raft_commit_index got.0) s
    after_part to got.0

  unfoldable pub append_round : Addr → ℕ → Bool → Exec Peer Bool
  unfolding append_from append_part
  append_round to next sending = do
    log ← gets λ s. s.raft_log
    if ltb (first_idx log) next then append_from to next >> pure sending else append_part to

  unfoldable pub next_index_of : Addr → Exec Peer ℕ
  next_index_of to = do next ← gets λ s. s.raft_next_index; or_raise (lookup to next) key_error

  -- The loop for one node; `single` is `sendSingle`. It stops when the time is over.
  unfoldable pub append_loop : ℕ → Addr → Bool → Bool → Exec Peer (Unit {0})
  unfolding append_round next_index_of
  append_loop zero to single sending = pure tt
  append_loop (suc rounds) to single sending = do
    next ← next_index_of to
    log ← gets λ s. s.raft_log
    elim (leb next (current_log_index log) || (single || sending)) [
      | true ↦ (append_round to next sending >>= λ again. append_loop rounds to false again)
      | false ↦ pure tt
    ]

  unfoldable pub append_to : Clock → Addr → Exec Peer (Unit {0})
  unfolding append_loop
  append_to clock to = do
    here ← gets λ s. elem to s.connected
    if here
        then append_loop (suc (clock.append_rounds to)) to true false
        else modify (λ s. record s { serializer = C.cancel_transmission s.serializer to })

  unfoldable pub send_append_entries : Clock → Exec Peer (Unit {0})
  unfolding append_to for_each
  send_append_entries clock = do
    modify λ s. record s { new_append_entries_time = clock.now + C.append_entries_period }
    peers ← gets λ s. s.nodes ++ s.readonly_nodes
    for_each peers (append_to clock)
