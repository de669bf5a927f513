-- ===== src/Raft/Election.antt =====
-- Elections (pysyncobjbc/syncobj.py, `__onBecomeLeader`, `__onLeaderChanged`, the requests for votes
-- and the answers in `_onMessageReceived`, and what `_onTick` does of them).
use belcoin.Prelude.{
  ℕ, ◌+◌, ◌*◌, Bool, false, not, ◌&&◌, ◌||◌, Option, none, some, List, [], ◌∷◌, ◌++◌, ltb, leb,
  ◌==◌, if◌then◌else◌, elem, length, is_some,
}
use belcoin.Exec.{Exec, pure, gets, modify, ◌>>=◌, ◌>>◌}
use belcoin.Dict.{Dict, insert}
use belcoin.Raft.{
  Addr, Entry, Setup, Peer, Clock, request_vote, response_vote, follower, candidate, leader,
  is_leader, is_candidate, leader_changed, no_op, call, node_send, send,
}
use belcoin.Raft.Log.{current_log_index, current_log_term}
use belcoin.Raft.Append.{send_append_entries}

-- `count > (len(self.__nodes) + 1) / 2`: more than half of the nodes and this one
abbrev pub is_majority : ℕ → List Addr → Bool
is_majority count nodes = ltb (length nodes + 1) (2 * count)

module _ ⦃C : Setup⦄ where
  -- Every function that waits for a reply is called, in the order of the requests' numbers, and
  -- forgotten; the numbers grow, so the order is that in which they came.
  unfoldable pub fail_all : Dict ℕ → Peer → Peer
  unfolding call
  fail_all [] s = s
  fail_all ((id, f) ∷ more) s = fail_all more (call f leader_changed s)

  unfoldable pub on_leader_changed : Peer → Peer
  unfolding fail_all
  on_leader_changed s = record (fail_all s.commands_waiting_reply s) { commands_waiting_reply = [] }

  -- The loop of `__onBecomeLeader`
  unfoldable pub reset_indexes : ℕ → List Addr → Peer → Peer
  reset_indexes now [] s = s
  reset_indexes now (addr ∷ more) s = reset_indexes now more (record s {
    raft_next_index = insert addr (current_log_index s.raft_log + 1) s.raft_next_index;
    raft_match_index = insert addr 0 s.raft_match_index;
    last_response_time = insert addr now s.last_response_time;
  })

  -- The no-op entry
  unfoldable pub add_noop : Peer → Peer
  add_noop s = record s {
    raft_log =
        s.raft_log
        ++ (record {
          command = no_op ∷ [];
          idx = current_log_index s.raft_log + 1;
          term = s.raft_current_term;
        }
            ∷ []);
    noop_idx = some (current_log_index s.raft_log + 1);
  }

  unfoldable pub take_lead : Clock → Peer → Peer
  unfolding reset_indexes add_noop
  take_lead clock s = add_noop (
      reset_indexes clock.now (s.nodes ++ s.readonly_nodes)
        (record s { raft_leader = s.self_node_addr; raft_state = leader; last_response_time = [] }))

  unfoldable pub on_become_leader : Clock → Exec Peer (Unit {0})
  unfolding take_lead send_append_entries
  on_become_leader clock = do
    modify (take_lead clock)
    if C.use_batch then pure tt else send_append_entries clock
    send_append_entries clock

  unfoldable pub request_votes : List Addr → Peer → Peer
  unfolding node_send
  request_votes [] s = s
  request_votes (addr ∷ more) s = request_votes more (
      node_send addr
        (request_vote s.raft_current_term (current_log_index s.raft_log)
          (current_log_term s.raft_log))
        s)

  -- The own term
  unfoldable pub begin_term : Clock → Addr → Peer → Peer
  begin_term clock me s = record s {
    raft_election_deadline = clock.now + clock.timeout;
    raft_leader = none;
    raft_state = candidate;
    raft_current_term = s.raft_current_term + 1;
    voted_for = some me;
    votes_count = 1;
  }

  -- A node stands for election.
  unfoldable pub stand : Clock → Addr → Peer → Peer
  unfolding request_votes on_leader_changed begin_term
  stand clock me s = on_leader_changed (request_votes s.nodes (begin_term clock me s))

  -- `__connectedToAnyone`
  abbrev pub any_connected : List Addr → List Addr → Bool
  any_connected [] up = false
  any_connected (addr ∷ more) up = elem addr up || any_connected more up

  abbrev pub connected_to_anyone : Peer → Bool
  connected_to_anyone s = any_connected s.nodes s.connected || (length s.nodes == 0)

  abbrev pub elects : Clock → Peer → Bool
  elects clock s =
      not (is_leader s.raft_state)
      && (ltb s.raft_election_deadline clock.now && connected_to_anyone s)

  unfoldable pub lead_if_elected : Clock → Exec Peer (Unit {0})
  unfolding on_become_leader
  lead_if_elected clock = do
    s ← gets λ s. s
    if is_majority s.votes_count s.nodes then on_become_leader clock else pure tt

  unfoldable pub elect_as : Clock → Option Addr → Exec Peer (Unit {0})
  unfolding stand lead_if_elected
  elect_as clock none = pure tt
  elect_as clock (some me) = do
    s ← gets λ s. s
    if elects clock s then (modify (stand clock me) >> lead_if_elected clock) else pure tt

  unfoldable pub election_tick : Clock → Exec Peer (Unit {0})
  unfolding elect_as
  election_tick clock = gets (λ s. s.self_node_addr) >>= elect_as clock

  -- A message of a later term
  unfoldable pub see_term : ℕ → Peer → Peer
  see_term term s =
      if ltb s.raft_current_term term
      then record s {
        raft_current_term = term;
        voted_for = none;
        raft_state = follower;
        raft_leader = none;
      }
      else s

  -- Whether the log that ends at the given term and place is at least as far as the own one
  abbrev pub is_up_to_date : ℕ → ℕ → List Entry → Bool
  is_up_to_date term idx log =
      not (ltb term (current_log_term log))
      && not ((term == current_log_term log) && ltb idx (current_log_index log))

  abbrev pub grants : ℕ → ℕ → ℕ → Peer → Bool
  grants term last_idx last_term s =
      not (is_leader s.raft_state)
      && (leb s.raft_current_term term
          && (is_up_to_date last_term last_idx s.raft_log && not (is_some s.voted_for)))

  unfoldable pub vote : Clock → Addr → ℕ → Peer → Peer
  unfolding send
  vote clock from term s =
      send from (response_vote term)
        (record s { voted_for = some from; raft_election_deadline = clock.now + clock.timeout })

  -- `request_vote`
  unfoldable pub on_request_vote : Clock → Addr → ℕ → ℕ → ℕ → Peer → Peer
  unfolding see_term vote
  on_request_vote clock from term last_idx last_term s0 =
      if is_some s0.self_node_addr
      then (let s = see_term term s0 in
          if grants term last_idx last_term s then vote clock from term s else s)
      else s0

  -- `response_vote`
  unfoldable pub on_response_vote : Clock → ℕ → Exec Peer (Unit {0})
  unfolding lead_if_elected
  on_response_vote clock term = do
    s ← gets λ s. s
    if is_candidate s.raft_state && (term == s.raft_current_term)
        then (modify (λ s. record s { votes_count = s.votes_count + 1 }) >> lead_if_elected clock)
        else pure tt
