-- ===== src/Raft/Follow.antt =====
-- What a node does with the entries of a leader (pysyncobjbc/syncobj.py, `append_entries` in
-- `_onMessageReceived`).
pub mod Replaces
use belcoin.Prelude.{
  ℕ, ◌+◌, Bool, true, false, not, ◌&&◌, ◌||◌, Option, none, some, List, [], ◌∷◌, ◌++◌, ◌==◌, ltb,
  leb, if◌then◌else◌,
}
use belcoin.Exec.{Exec, pure, gets, or_raise, modify, for_each, ◌>>=◌, ◌>>◌, decode_error}
use belcoin.Codec.{Octets}
use belcoin.Raft.{
  Addr, Entry, Setup, Peer, Clock, Change, Part, Packet, Transmission, start, process, finish,
  append_entries, append_data, append_dump, follower,
}
use belcoin.Raft.Log.{current_log_index, last_from, get_entries, delete_entries_from}
use belcoin.Raft.Send.{send_next_node_idx, receive}
use belcoin.Raft.Cluster.{is_self, do_change_cluster, parse_change_cluster_request}
use belcoin.Raft.Election.{on_leader_changed}
use belcoin.Raft.Snapshot.{load_dump_file}

abbrev pub min : ℕ → ℕ → ℕ
min a b = if ltb b a then b else a

-- `reversed(entries)`, before `acc`
unfoldable pub reversed : List Entry → List Entry → List Entry
reversed [] acc = acc
reversed (e ∷ es) acc = reversed es (e ∷ acc)

-- `nextNodeIdx`: the place of the last new entry, or the one after `prevLogIdx`
abbrev pub next_node : ℕ → List Entry → ℕ
next_node prev [] = prev + 1
next_node prev (e ∷ es) = (last_from e es).idx

module _ ⦃C : Setup⦄ where
  -- What every such message does first
  unfoldable pub follow : Clock → Addr → ℕ → ℕ → Peer → Peer
  unfolding on_leader_changed
  follow clock from term commit s0 =
      let s1 = record s0 { raft_election_deadline = clock.now + clock.timeout } in
      let s2 = (if is_self from s1.raft_leader then s1 else on_leader_changed s1) in
      let s3 = record s2 { raft_leader = some from } in
      let s4 =
        (if ltb s3.raft_current_term term
          then record s3 { raft_current_term = term; voted_for = none }
          else s3) in
      record s4 { raft_state = follower; leader_commit_index = some commit }

  unfoldable pub change_if : Clock → Bool → Option Change → Exec Peer (Unit {0})
  unfolding do_change_cluster
  change_if clock reverse none = pure tt
  change_if clock reverse (some change) = do_change_cluster clock change reverse >> pure tt

  unfoldable pub change_by : Clock → Bool → Entry → Exec Peer (Unit {0})
  unfolding parse_change_cluster_request change_if
  change_by clock reverse entry =
      parse_change_cluster_request entry.command >>= change_if clock reverse

  unfoldable pub change_all : Clock → Bool → List Entry → Exec Peer (Unit {0})
  unfolding change_by for_each
  change_all clock reverse entries =
      if C.dynamic_membership then for_each entries (change_by clock reverse) else pure tt

  -- `len(prevEntries) > 1`: `later` are the entries after the first of them
  unfoldable pub roll_back : Clock → ℕ → List Entry → Exec Peer (Unit {0})
  unfolding change_all reversed delete_entries_from
  roll_back clock prev [] = pure tt
  roll_back clock prev (e ∷ es) =
      change_all clock true (reversed (e ∷ es) [])
      >> modify (λ s. record s { raft_log = delete_entries_from (prev + 1) s.raft_log })

  unfoldable pub accept : Clock → Addr → ℕ → List Entry → List Entry → Exec Peer (Unit {0})
  unfolding roll_back change_all send_next_node_idx
  accept clock from prev later entries = do
    roll_back clock prev later
    modify λ s. record s { raft_log = s.raft_log ++ entries }
    change_all clock false entries
    modify (send_next_node_idx from false (some (next_node prev entries)) true)

  -- `self.__raftCommitIndex = min(leaderCommitIndex, self.__getCurrentLogIndex())`
  unfoldable pub set_commit : ℕ → Peer → Peer
  set_commit commit s = record s { raft_commit_index = min commit (current_log_index s.raft_log) }

  -- At the entry that the message names: `found` is `prevEntries`
  unfoldable pub append_at :
      Clock → Addr → ℕ → ℕ → ℕ → List Entry → List Entry → Exec Peer (Unit {0})
  unfolding send_next_node_idx accept set_commit
  append_at clock from commit prev prev_term [] entries =
      modify (send_next_node_idx from true none false)
  append_at clock from commit prev prev_term (e ∷ later) entries =
      if e.term == prev_term
      then (accept clock from prev later entries >> modify (set_commit commit))
      else modify (send_next_node_idx from true (some prev) false)

  unfoldable pub append_after :
      Clock → Addr → ℕ → Option (ℕ × ℕ) → List Entry → Exec Peer (Unit {0})
  unfolding append_at get_entries send_next_node_idx
  append_after clock from commit none entries = modify (send_next_node_idx from true none false)
  append_after clock from commit (some (prev, prev_term)) entries = do
    log ← gets λ s. s.raft_log
    append_at clock from commit prev prev_term (get_entries (some prev) log) entries

  unfoldable pub on_append_entries :
      Clock → Addr → ℕ → ℕ → Option (ℕ × ℕ) → List Entry → Exec Peer (Unit {0})
  unfolding follow append_after
  on_append_entries clock from term commit prev entries = do
    current ← gets λ s. s.raft_current_term
    if leb current term
        then (modify (follow clock from term commit) >> append_after clock from commit prev entries)
        else pure tt

  -- A piece of an entry; the last is taken as above. A piece that is not the last is only confirmed.
  unfoldable pub append_piece :
      Clock → Addr → ℕ → Option (ℕ × ℕ) → Option Octets → Exec Peer (Unit {0})
  unfolding append_after send_next_node_idx
  append_piece clock from commit prev none = modify (send_next_node_idx from false none false)
  append_piece clock from commit prev (some bytes) = do
    entry ← or_raise (C.loads bytes) decode_error
    modify λ s. record s { recv_transmission = [] }
    append_after clock from commit prev (entry ∷ [])

  -- What is kept when a piece comes; after the last it is emptied once the entry is loaded.
  abbrev pub keep_piece : Transmission → Octets → Octets → Octets
  keep_piece finish kept new = kept ++ new
  keep_piece kind kept new = (receive kept kind new).1

  unfoldable pub on_append_data :
      Clock → Addr → ℕ → ℕ → Option (ℕ × ℕ) → Transmission → Octets → Exec Peer (Unit {0})
  unfolding follow append_piece receive
  on_append_data clock from term commit prev kind new = do
    current ← gets λ s. s.raft_current_term
    if leb current term
        then (do
          modify (follow clock from term commit)
          kept ← gets λ s. s.recv_transmission
          modify λ s. record s { recv_transmission = keep_piece kind kept new }
          append_piece clock from commit prev (receive kept kind new).0)
        else pure tt

  unfoldable pub install : Addr → Option Part → Peer → Peer
  unfolding load_dump_file send_next_node_idx
  install from none s = s
  install from (some part) s =
      let got = C.set_transmission_data s.serializer part in
      let s' = record s { serializer = got.1 } in
      if got.0 then send_next_node_idx from false none true (load_dump_file true s') else s'

  -- A part of a dump
  unfoldable pub on_append_dump : Clock → Addr → ℕ → ℕ → Option Part → Peer → Peer
  unfolding follow install set_commit
  on_append_dump clock from term commit part s =
      if leb s.raft_current_term term
      then set_commit commit (install from part (follow clock from term commit s))
      else s
