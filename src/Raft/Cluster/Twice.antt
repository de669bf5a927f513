-- ===== src/Raft/Cluster/Twice.antt =====
-- Changes of the cluster one after the other. `__changeClusterIDx`, which is to hold back a change until
-- the one before is committed, is never set.
use belcoin.Prelude.{
  is_some, ℕ, ◌≤◌, ◌≡◌, ◌≢◌, refl, ap, ◌∙◌, Bool, true, false, ◌||◌, Option, none, some, [], ◌∷◌,
  ◌++◌, ltb, if◌then◌else◌, arith, elem, elem-append, Bool-cases, inl, inr,
}
use belcoin.Raft.Sound.Accept.{after}
use belcoin.Exec.{ok, pure, modify, or_raise, ◌>>◌, type_error}
use belcoin.Raft.{Addr, Setup, Peer, Clock, add_node, is_leader}
use belcoin.Raft.Cluster.{
  is_self, new_node, hear_new, add_to_cluster, do_change_cluster, settle_change, change_if_free,
  change_after, change_cluster,
}

module _ ⦃C : Setup⦄ (clock : Clock) where
  -- The state after a node was added
  added : Addr → Peer → Peer
  added a s =
      hear_new clock.now a
        (new_node a (record s { other_nodes_addrs = s.other_nodes_addrs ++ (a ∷ []) }))

  -- A node that may change the cluster: nothing holds it back, and its no-op entry is applied.
  pub record MayChange (s : Peer) : Type 0 where
    pub free : s.change_cluster_idx ≡ none
    pub noop : (i : ℕ) × (s.noop_idx ≡ some i) × (i ≤ s.raft_last_applied)

  abbrev pub IsNew : Addr → Peer → Type 0
  IsNew a s = (is_self a s.self_node_addr ≡ false) × (elem a s.other_nodes_addrs ≡ false)

  add_new : (a : Addr) (s : Peer) → IsNew a s → add_to_cluster clock a s ≡ (ok true, added a s)
  unfolding add_to_cluster added
  add_new a s (p, q) =
      let new : (is_self a s.self_node_addr || elem a s.other_nodes_addrs) ≡ false = ground arith in
      rw new refl

  free-change :
      (a : Addr) (s : Peer)
      → s.change_cluster_idx ≡ none
      → IsNew a s
      → change_if_free clock (add_node a) s ≡ (ok true, added a s)
  unfolding change_if_free do_change_cluster
  free-change a s e new =
      ap (λ (o : Option ℕ). (if is_some o then pure false else add_to_cluster clock a) s) e
      ∙ add_new a s new

  after-change :
      (a : Addr) (noop : ℕ) (s : Peer)
      → s.change_cluster_idx ≡ none
      → noop ≤ s.raft_last_applied
      → IsNew a s
      → change_after clock (add_node a) noop s ≡ (ok true, added a s)
  unfolding change_after settle_change
  after-change a noop s e le new =
      let done : ltb s.raft_last_applied noop ≡ false = ground arith in
      ap
        (λ (b : Bool).
          (if b
              then pure false
              else (modify (λ s. settle_change s.change_cluster_idx s)
                  >> change_if_free clock (add_node a)))
            s)
        done
      ∙ (ap (λ (o : Option ℕ). change_if_free clock (add_node a) (settle_change o s)) e
          ∙ free-change a s e new)

  accepted :
      (a : Addr) (s : Peer)
      → MayChange s
      → IsNew a s
      → change_cluster clock (add_node a) s ≡ (ok true, added a s)
  unfolding change_cluster
  accepted a s m new =
      let (i, e, le) = m.noop in
      ap
        (λ (o : Option ℕ).
          after (or_raise {S = Peer} o type_error s) (change_after clock (add_node a)))
        e
      ∙ after-change a i s m.free le new

  added-MayChange : (a : Addr) (s : Peer) → MayChange s → MayChange (added a s)
  unfolding added hear_new new_node
  added-MayChange a s m = elim (Bool-cases (is_leader s.raft_state)) [
    | inl leads ↦ rw leads (record { free = m.free; noop = m.noop })
    | inr other ↦ rw other (record { free = m.free; noop = m.noop })
  ]

  added-IsNew : (a b : Addr) (s : Peer) → a ≢ b → IsNew b s → IsNew b (added a s)
  unfolding added hear_new new_node
  added-IsNew a b s ne (p, q) = elim (Bool-cases (is_leader s.raft_state)) [
    | inl leads ↦ rw leads (p, elem-append b s.other_nodes_addrs (a ∷ []) ∙ distinct)
    | inr other ↦ rw other (p, elem-append b s.other_nodes_addrs (a ∷ []) ∙ distinct)
  ]
    where
      distinct : (elem b s.other_nodes_addrs || elem b (a ∷ [])) ≡ false
      distinct = ground arith

  added-nodes : (a : Addr) (s : Peer) → (added a s).nodes ≡ s.nodes ++ (a ∷ [])
  unfolding added hear_new new_node
  added-nodes a s = ground arith

  added-commit : (a : Addr) (s : Peer) → (added a s).raft_commit_index ≡ s.raft_commit_index
  unfolding added hear_new new_node
  added-commit a s = ground arith

  -- A node that may change its cluster accepts two additions of new nodes one right after the other,
  -- with the same commit index as before: the second does not wait until the first is committed.
  pub second_change :
      (a b : Addr) (s : Peer)
      → MayChange s
      → IsNew a s
      → IsNew b s
      → a ≢ b
      → (t : Peer) × (u : Peer) × (change_cluster clock (add_node a) s ≡ (ok true, t))
        × (change_cluster clock (add_node b) t ≡ (ok true, u))
        × (u.nodes ≡ (s.nodes ++ (a ∷ [])) ++ (b ∷ []))
        × (u.raft_commit_index ≡ s.raft_commit_index)
  second_change a b s m new_a new_b ne = (
    added a s,
    added b (added a s),
    accepted a s m new_a,
    accepted b (added a s) (added-MayChange a s m) (added-IsNew a b s ne new_b),
    added-nodes b (added a s) ∙ ap (λ nodes. nodes ++ (b ∷ [])) (added-nodes a s),
    added-commit b (added a s) ∙ added-commit a s,
  )
