-- ===== src/Raft/Cluster.antt =====
-- Changes of the cluster (pysyncobjbc/syncobj.py, `__changeCluster`, `__doChangeCluster`,
-- `__parseChangeClusterRequest`).
pub mod Twice
use belcoin.Prelude.{
  ℕ, ◌+◌, Bool, true, false, not, ◌&&◌, ◌||◌, Option, none, some, List, [], ◌∷◌, ◌++◌, ltb, leb,
  ◌==◌, if◌then◌else◌, elem, remove_first, is_some,
}
use belcoin.Exec.{
  Exec, pure, raise, gets, or_raise, modify, ◌>>=◌, ◌>>◌, key_error, type_error, decode_error,
}
use belcoin.Dict.{lookup, insert, without}
use belcoin.Codec.{Octets}
use belcoin.Raft.{
  Addr, Entry, Setup, Peer, Clock, Change, add_node, rem_node, other_change, RaftState, leader,
  is_leader, membership,
}
use belcoin.Raft.Log.{current_log_index}

-- `addr == self.__selfNodeAddr`
abbrev pub is_self : Addr → Option Addr → Bool
is_self addr none = false
is_self addr (some me) = addr == me

module _ ⦃C : Setup⦄ where
  -- `self.__nodes.append(Node(...))` with the entries of the two dictionaries
  unfoldable pub new_node : Addr → Peer → Peer
  new_node addr s = record s {
    nodes = s.nodes ++ (addr ∷ []);
    raft_next_index = insert addr (current_log_index s.raft_log + 1) s.raft_next_index;
    raft_match_index = insert addr 0 s.raft_match_index;
  }

  unfoldable pub hear_new : ℕ → Addr → Peer → Peer
  hear_new now addr s =
      if is_leader s.raft_state
      then record s { last_response_time = insert addr now s.last_response_time }
      else s

  -- A node that is not in the cluster yet
  unfoldable pub add_to_cluster : Clock → Addr → Exec Peer Bool
  unfolding new_node hear_new
  add_to_cluster clock addr = do
    s ← gets λ s. s
    if is_self addr s.self_node_addr || elem addr s.other_nodes_addrs then pure false else (do
      modify
          λ s. new_node addr (record s { other_nodes_addrs = s.other_nodes_addrs ++ (addr ∷ []) })
      modify (hear_new clock.now addr)
      pure true)

  -- `del d[addr]` of both dictionaries
  unfoldable pub forget_indexes : Addr → Exec Peer (Unit {0})
  forget_indexes addr = do
    next ← gets λ s. s.raft_next_index
    or_raise (lookup addr next) key_error
    modify λ s. record s { raft_next_index = without addr s.raft_next_index }
    match ← gets λ s. s.raft_match_index
    or_raise (lookup addr match) key_error
    modify λ s. record s { raft_match_index = without addr s.raft_match_index }

  -- A node that is in it. `Node._destroy` closes the connection.
  unfoldable pub remove_from_cluster : Addr → Exec Peer Bool
  unfolding forget_indexes
  remove_from_cluster addr = do
    s ← gets λ s. s
    if is_self addr s.self_node_addr
          || (not (elem addr s.other_nodes_addrs) || not (elem addr s.nodes))
        then pure false
        else (do
          modify λ s. record s {
            nodes = remove_first addr s.nodes;
            other_nodes_addrs = remove_first addr s.other_nodes_addrs;
            connected = remove_first addr s.connected;
          }
          forget_indexes addr
          pure true)

  unfoldable pub do_change_cluster : Clock → Change → Bool → Exec Peer Bool
  unfolding add_to_cluster remove_from_cluster
  do_change_cluster clock (add_node addr) reverse =
      if reverse then remove_from_cluster addr else add_to_cluster clock addr
  do_change_cluster clock (rem_node addr) reverse =
      if reverse then add_to_cluster clock addr else remove_from_cluster addr
  do_change_cluster clock other_change reverse = pure false

  -- A change that was waited for has been applied.
  unfoldable pub settle_change : Option ℕ → Peer → Peer
  settle_change none s = s
  settle_change (some idx) s =
      if leb idx s.raft_last_applied then record s { change_cluster_idx = none } else s

  unfoldable pub change_if_free : Clock → Change → Exec Peer Bool
  unfolding do_change_cluster
  change_if_free clock change = do
    pending ← gets λ s. is_some s.change_cluster_idx
    if pending then pure false else do_change_cluster clock change false

  -- `noop` is `self.__noopIDx`.
  unfoldable pub change_after : Clock → Change → ℕ → Exec Peer Bool
  unfolding settle_change change_if_free
  change_after clock change noop = do
    applied ← gets λ s. s.raft_last_applied
    if ltb applied noop
        then pure false
        else (modify (λ s. settle_change s.change_cluster_idx s) >> change_if_free clock change)

  unfoldable pub change_cluster : Clock → Change → Exec Peer Bool
  unfolding change_after
  change_cluster clock change =
      gets (λ s. s.noop_idx) >>= λ noop. or_raise noop type_error >>= change_after clock change

  -- `ord(command[:1])` of an empty command is a TypeError.
  unfoldable pub parse_change_cluster_request : Octets → Exec Peer (Option Change)
  parse_change_cluster_request [] = raise type_error
  parse_change_cluster_request (kind ∷ payload) =
      if kind == membership
      then (or_raise (C.loads_change payload) decode_error >>= λ change. pure (some change))
      else pure none
