-- ===== src/Raft/Sound/Follow.antt =====
-- The entries of a leader keep what holds of every node.
use belcoin.Prelude.{
  ◌≤◌, elem, ℕ, ◌+◌, ◌≡◌, refl, sym, Bool, true, false, Option, none, some, List, [], ◌∷◌, ◌++◌,
  arith, ltb, leb, ◌==◌, if◌then◌else◌, Bool-cases, inl, inr,
}
use mathlib.Core.Path.{subst}
use belcoin.Exec.{modify}
use belcoin.Raft.{Packet, node_send, send, Addr, Entry, Setup, Peer, Clock, follower, is_leader}
use belcoin.Raft.Log.{get_entries}
use belcoin.Raft.Log.Laws.{
  Run, IsLog, IsLog-append, IsFound, up_to, up_to-IsLog, up_to-index, get_entries-IsFound,
  get_entries-Run,
}
use belcoin.Raft.Send.{send_next_node_idx}
use belcoin.Raft.Cluster.{is_self}
use belcoin.Raft.Election.{on_leader_changed}
use belcoin.Raft.Follow.{follow, set_commit, append_at, append_after, on_append_entries}
use belcoin.Raft.Sound.{
  Heard, send-IsSound, IsSound, IsSound-same, ballot, Follows, send_next_node_idx-IsSound,
}
use belcoin.Raft.Log.Chain.{
  Chain-index, Fact, Chain, ChainFrom, LinkedTo, Within, Chain-cut, ChainFrom-more,
}
use belcoin.Raft.Sound.Authors.{led-IsAuthor, later-IsAuthor, down-IsAuthor}
use belcoin.Raft.Sound.Votes.{later_term, step_down}
use belcoin.Raft.Sound.Lead.{IsSound-ballot, on_leader_changed-IsSound}
use belcoin.Raft.Sound.Accept.{after, Usual, Run-Usual, accepted, accept_lem}

module _ ⦃C : Setup⦄ where
  -- Sending does not read the commit index.
  set_commit-send :
      (commit : ℕ) (to : Addr) (p : Packet) (s : Peer)
      → set_commit commit (send to p s) ≡ send to p (set_commit commit s)
  unfolding set_commit send node_send
  set_commit-send commit to p s = elim (Bool-cases (elem to (s.nodes ++ s.readonly_nodes))) [
    | inr other ↦ rw other refl
    | inl known ↦
        rw known (elim (Bool-cases (elem to s.connected)) [
          | inr down ↦ rw down refl
          | inl up ↦ rw up refl
        ])
  ]

module _ ⦃C : Setup⦄ (me n : ℕ) (heard : Heard) where
  follow-IsSound :
      (clock : Clock) (from : Addr) (term commit : ℕ) (s : Peer)
      → IsSound me n heard s
      → IsSound me n heard (follow clock from term commit s)
  unfolding follow
  follow-IsSound clock from term commit s0 h = down (led (is_self from s0.raft_leader))
    where
      s1 : Peer
      s1 = record s0 { raft_election_deadline = clock.now + clock.timeout }

      led : (b : Bool) → IsSound me n heard (if b then s1 else on_leader_changed s1)
      led true = IsSound-same me n heard s0 s1 h refl refl refl refl refl
      led false =
          on_leader_changed-IsSound me n heard s1
            (IsSound-same me n heard s0 s1 h refl refl refl refl refl)

      down :
          {s2 : Peer}
          → IsSound me n heard s2
          → (let s3 = record s2 { raft_leader = some from } in
              let s4 =
                (if ltb s3.raft_current_term term
                  then record s3 { raft_current_term = term; voted_for = none }
                  else s3) in
              IsSound me n heard
                (record s4 { raft_state = follower; leader_commit_index = some commit }))
      down {s2} k = elim (Bool-cases (ltb s2.raft_current_term term)) [
        | inl later ↦ rw later (
            IsSound-ballot me n heard s2 _ k refl refl refl refl
              (later_term me n heard (ballot s2) k.fair term (ground arith))
              (λ book facts a. later-IsAuthor me book (ballot s2) _ a term (ground arith)))
        | inr now ↦ rw now (
            IsSound-ballot me n heard s2 _ k refl refl refl refl
              (step_down me n heard (ballot s2) k.fair)
              (λ book facts a. down-IsAuthor me book (ballot s2) _ a))
      ]

  set_commit-IsSound :
      (commit : ℕ) (s : Peer)
      → 1 ≤ commit
      → IsSound me n heard s
      → IsSound me n heard (set_commit commit s)
  unfolding set_commit
  set_commit-IsSound commit s c h = record {
    log = h.log;
    committed = ground arith;
    begun = ground (arith, (Chain-index h.book s.raft_log h.log h.chained).1);
    posted = h.posted;
    queued = h.queued;
    fair = h.fair;
    book = h.book;
    facts = h.facts;
    author = h.author;
    chained = h.chained;
    linked = h.linked;
  }

  settled-IsSound :
      (commit : ℕ) (log : List Entry) (s : Peer)
      → 1 ≤ commit
      → IsLog log
      → is_leader s.raft_state ≡ false
      → ((book : List Fact) → Within heard.book book → Chain book s.raft_log → Chain book log)
      → IsSound me n heard s
      → IsSound me n heard (set_commit commit (record s { raft_log = log }))
  unfolding set_commit
  settled-IsSound commit log s c l other g h = record {
    log = l;
    committed = ground arith;
    begun = ground (arith, (Chain-index h.book log l (g h.book h.facts.keeps h.chained)).1);
    posted = h.posted;
    queued = h.queued;
    fair = h.fair;
    book = h.book;
    facts = h.facts;
    author = led-IsAuthor me h.book (ballot s) _ h.author other _;
    chained = g h.book h.facts.keeps h.chained;
    linked = h.linked;
  }

  accepted-IsSound :
      (from : Addr) (commit prev : ℕ) (x : Entry) (later entries : List Entry) (s : Peer)
      → get_entries (some prev) s.raft_log ≡ x ∷ later
      → 1 ≤ commit
      → IsFound prev s.raft_log
      → Run (prev + 1) entries
      → is_leader s.raft_state ≡ false
      → ChainFrom heard.book x.term entries
      → IsSound me n heard s
      → IsSound me n heard (set_commit commit (accepted from prev entries s))
  unfolding accepted send_next_node_idx
  accepted-IsSound from commit prev x later entries s e k f r other l h =
      subst (IsSound me n heard) (sym (set_commit-send commit from _ _)) (
        send-IsSound me n heard from _ _ tt refl (λ book c. tt)
          (settled-IsSound commit (up_to prev s.raft_log ++ entries) s k
            (IsLog-append (up_to prev s.raft_log) entries (up_to-IsLog prev s.raft_log h.log f)
              (subst (λ i. Run (i + 1) entries) (sym (up_to-index prev s.raft_log h.log f)) r))
            other
            (λ book w c.
              Chain-cut book prev s.raft_log entries x later e c
                (ChainFrom-more heard.book book w x.term entries l))
            h))

  append_at-IsSound :
      (clock : Clock) (from : Addr) (commit prev prev_term : ℕ) (found entries : List Entry)
      (s : Peer)
      → get_entries (some prev) s.raft_log ≡ found
      → 1 ≤ commit
      → Run (prev + 1) entries
      → is_leader s.raft_state ≡ false
      → ChainFrom heard.book prev_term entries
      → IsSound me n heard s
      → IsSound me n heard (append_at clock from commit prev prev_term found entries s).1
  unfolding append_at
  append_at-IsSound clock from commit prev prev_term [] entries s e k r nl l h =
      send_next_node_idx-IsSound me n heard from true none false s h
  append_at-IsSound clock from commit prev prev_term (x ∷ later) entries s e k r nl l h =
      elim (Bool-cases (x.term == prev_term)) [
        | inr other ↦
            rw other (send_next_node_idx-IsSound me n heard from true (some prev) false s h)
        | inl same ↦
            let f = get_entries-IsFound prev s.raft_log x later h.log e in
            let u = subst Usual e (Run-Usual prev _ (get_entries-Run prev s.raft_log h.log)) in
            rw same (
              subst (λ r. IsSound me n heard (after r (λ _. modify (set_commit commit))).1)
                (sym (
                  accept_lem clock from prev x later entries s e f u.1
                    (Run-Usual (prev + 1) entries r)))
                (accepted-IsSound from commit prev x later entries s e k f r nl
                  (subst (λ t. ChainFrom heard.book t entries) (ground arith) l) h))
      ]

  append_after-IsSound :
      (clock : Clock) (from : Addr) (commit : ℕ) (prev : Option (ℕ × ℕ)) (entries : List Entry)
      (s : Peer)
      → 1 ≤ commit
      → Follows prev entries
      → is_leader s.raft_state ≡ false
      → LinkedTo heard.book prev entries
      → IsSound me n heard s
      → IsSound me n heard (append_after clock from commit prev entries s).1
  unfolding append_after
  append_after-IsSound clock from commit none entries s k f nl l h =
      send_next_node_idx-IsSound me n heard from true none false s h
  append_after-IsSound clock from commit (some (prev, t)) entries s k f nl l h =
      append_at-IsSound clock from commit prev t (get_entries (some prev) s.raft_log) entries s refl
        k f nl l h

  pub on_append_entries-IsSound :
      (clock : Clock) (from : Addr) (term commit : ℕ) (prev : Option (ℕ × ℕ)) (entries : List Entry)
      (s : Peer)
      → 1 ≤ commit
      → Follows prev entries
      → LinkedTo heard.book prev entries
      → IsSound me n heard s
      → IsSound me n heard (on_append_entries clock from term commit prev entries s).1
  unfolding on_append_entries follow
  on_append_entries-IsSound clock from term commit prev entries s k f l h =
      elim (Bool-cases (leb s.raft_current_term term)) [
        | inr old ↦ rw old h
        | inl now ↦ rw now (
            append_after-IsSound clock from commit prev entries (follow clock from term commit s) k
              f refl l (follow-IsSound clock from term commit s h))
      ]
