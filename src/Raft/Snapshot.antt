-- ===== src/Raft/Snapshot.antt =====
-- The installation of a full dump (pysyncobjbc/syncobj.py, `__loadDumpFile` and
-- `__updateClusterConfiguration`). The data of the replicated object in the dump is the application's.
use belcoin.Prelude.{
  remove_first, Bool, false, not, ◌&&◌, ◌||◌, Option, none, some, List, [], ◌∷◌, ◌==◌,
  if◌then◌else◌, elem,
}
use belcoin.Raft.{Addr, Entry, Setup, Peer, Dump}
use belcoin.Raft.Cluster.{is_self, new_node}
use belcoin.Signature.{same}

abbrev pub same_entry : Entry → Entry → Bool
same_entry a b = same a.command b.command && ((a.idx == b.idx) && (a.term == b.term))

-- Whether the log already begins with the two entries of the dump
unfoldable pub begins_with : Entry → Entry → List Entry → Bool
begins_with a b (x ∷ y ∷ log) = same_entry x a && same_entry y b
begins_with a b _ = false

-- `[node for node in addrs if node in others]`, and those that are not
unfoldable pub keep_in : List Addr → List Addr → List Addr
keep_in others [] = []
keep_in others (addr ∷ more) =
    let rest = keep_in others more in if elem addr others then addr ∷ rest else rest

-- The connections that are left once the nodes that are not in `others` are destroyed
unfoldable pub drop_out : List Addr → List Addr → List Addr → List Addr
drop_out others [] connected = connected
drop_out others (addr ∷ nodes) connected =
    let rest = drop_out others nodes connected in
    if elem addr others then rest else remove_first addr rest

unfoldable pub without_self : Option Addr → List Addr → List Addr
without_self me [] = []
without_self me (addr ∷ more) =
    let rest = without_self me more in if is_self addr me then rest else addr ∷ rest

module _ ⦃C : Setup⦄ where
  unfoldable pub add_missing : List Addr → List Addr → Peer → Peer
  unfolding new_node
  add_missing current [] s = s
  add_missing current (addr ∷ more) s =
      add_missing current more (if elem addr current then s else new_node addr s)

  -- A node that is dropped is destroyed, which disconnects it.
  unfoldable pub update_cluster_configuration : Peer → Peer
  unfolding add_missing keep_in drop_out
  update_cluster_configuration s =
      let current = keep_in s.other_nodes_addrs s.nodes in
      add_missing current s.other_nodes_addrs
        (record s { nodes = current; connected = drop_out s.other_nodes_addrs s.nodes s.connected })

  unfoldable pub load_dump : Bool → Dump → Peer → Peer
  unfolding begins_with update_cluster_configuration without_self
  load_dump clear_journal dump s0 =
      let s1 =
        (if clear_journal || not (begins_with dump.before dump.last s0.raft_log)
          then record s0 { raft_log = dump.before ∷ dump.last ∷ [] }
          else s0) in
      let s2 = record s1 { raft_last_applied = dump.last.idx } in
      if C.dynamic_membership
      then update_cluster_configuration
          (record s2 { other_nodes_addrs = without_self s2.self_node_addr dump.cluster })
      else s2

  -- An exception of `deserialize` is logged.
  unfoldable pub load_dump_file : Bool → Peer → Peer
  unfolding load_dump
  load_dump_file clear_journal s = elim (C.deserialize s.serializer) [
    | none ↦ s
    | some dump ↦ load_dump clear_journal dump s
  ]
