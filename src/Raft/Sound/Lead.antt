-- ===== src/Raft/Sound/Lead.antt =====
-- Elections keep what holds of every node.
use belcoin.Raft.Log.Chain.{Fact}
use belcoin.Codec.{Octets}
use belcoin.Raft.Append.{send_append_entries}
use belcoin.Prelude.{
  ap, ◌∙◌, sym, ap, ℕ, ◌+◌, ◌≡◌, refl, true, false, some, List, [], ◌∷◌, ◌++◌, arith, Bool-cases,
  inl, inr,
}
use mathlib.Core.Path.{subst}
use belcoin.Exec.{pure}
use belcoin.Exec.Keeps.{Keeps, Keeps-bind, Keeps-pure, Keeps-if}
use belcoin.Dict.{Dict}
use belcoin.Raft.{
  is_leader, Packet, Addr, Entry, Setup, Peer, Clock, is_candidate, is_leader, leader,
  leader_changed, call, node_send, no_op,
}
use belcoin.Raft.Log.{current_log_term, current_log_index}
use belcoin.Raft.Log.Laws.{is_change, is_change, IsLog-append}
use belcoin.Raft.Election.{
  begin_term, is_majority, fail_all, on_leader_changed, reset_indexes, add_noop, take_lead,
  on_become_leader, request_votes, stand, elects, lead_if_elected, elect_as, election_tick,
}
use belcoin.Raft.Sound.{
  IsAuthor, IsBook, Heard, IsBook, IsAuthor, IsSound, IsSound-same, IsFair, ballot,
  node_send-IsSound, call-IsSound,
}
use belcoin.Raft.Sound.Append.{send_append_entries-IsSound}
use belcoin.Raft.Sound.Authors.{
  candidate-standing, own-IsAuthor, elected-IsAuthor, made, made-IsBook, made-IsAuthor,
}
use belcoin.Raft.Log.Chain.{Fact, Chain-add, Chain-more, AllLinked-more, index-add}
use belcoin.Raft.Sound.Votes.{own_term, by_majority}

module _ ⦃C : Setup⦄ (me n : ℕ) (heard : Heard) where
  -- Only the votes and their like change.
  pub IsSound-ballot :
      (s s' : Peer)
      → IsSound me n heard s
      → s'.raft_log ≡ s.raft_log
      → s'.raft_commit_index ≡ s.raft_commit_index
      → s'.sent ≡ s.sent
      → s'.commands_queue ≡ s.commands_queue
      → IsFair me n heard (ballot s')
      → ((book : List Fact)
          → IsBook me n heard book
          → IsAuthor me book (ballot s) (current_log_index s.raft_log)
          → IsAuthor me book (ballot s') (current_log_index s.raft_log))
      → IsSound me n heard s'
  IsSound-ballot s s' h a b c d f g = record {
    log = rw a h.log;
    committed = rw a (rw b h.committed);
    begun = rw b h.begun;
    posted = rw c h.posted;
    queued = rw d h.queued;
    fair = f;
    book = h.book;
    facts = h.facts;
    author = rw a (g h.book h.facts h.author);
    chained = rw a h.chained;
    linked = rw c h.linked;
  }

  fail_all-IsSound :
      (waiting : Dict ℕ) (s : Peer) → IsSound me n heard s → IsSound me n heard (fail_all waiting s)
  unfolding fail_all
  fail_all-IsSound [] s h = h
  fail_all-IsSound ((id, f) ∷ more) s h =
      fail_all-IsSound more (call f leader_changed s) (call-IsSound me n heard f leader_changed s h)

  pub on_leader_changed-IsSound :
      (s : Peer) → IsSound me n heard s → IsSound me n heard (on_leader_changed s)
  unfolding on_leader_changed
  on_leader_changed-IsSound s h =
      IsSound-same me n heard (fail_all s.commands_waiting_reply s) _
        (fail_all-IsSound s.commands_waiting_reply s h) refl refl refl refl refl

  reset_indexes-IsSound :
      (now : ℕ) (nodes : List Addr) (s : Peer)
      → IsSound me n heard s
      → IsSound me n heard (reset_indexes now nodes s)
  unfolding reset_indexes
  reset_indexes-IsSound now [] s h = h
  reset_indexes-IsSound now (addr ∷ more) s h =
      reset_indexes-IsSound now more _ (IsSound-same me n heard s _ h refl refl refl refl refl)

  request_votes-IsSound :
      (nodes : List Addr) (s : Peer)
      → IsSound me n heard s
      → IsSound me n heard (request_votes nodes s)
  unfolding request_votes
  request_votes-IsSound [] s h = h
  request_votes-IsSound (addr ∷ more) s h =
      request_votes-IsSound more _ (node_send-IsSound me n heard addr _ s tt refl (λ book c. tt) h)

  stand-IsSound :
      (clock : Clock) (s : Peer) → IsSound me n heard s → IsSound me n heard (stand clock me s)
  unfolding stand begin_term
  stand-IsSound clock s h = on_leader_changed-IsSound _ (
      request_votes-IsSound s.nodes _ (
        IsSound-ballot s _ h refl refl refl refl (own_term me n heard (ballot s) h.fair)
          (λ book facts a. own-IsAuthor me book (ballot s) _ a)))

  -- A leader adds an entry to its log.
  pub grown-IsSound :
      (s : Peer) (command : Octets)
      → is_change command ≡ false
      → is_leader s.raft_state ≡ true
      → IsSound me n heard s
      → IsSound me n heard (record s {
        raft_log =
            s.raft_log
            ++ (record {
              command = command;
              idx = current_log_index s.raft_log + 1;
              term = s.raft_current_term;
            }
                ∷ []);
      })
  grown-IsSound s command q leads h =
      let last = current_log_index s.raft_log in
      let e : Entry = record { command = command; idx = last + 1; term = s.raft_current_term } in
      let prev = current_log_term s.raft_log in
      let f = made me n heard h.book (ballot s) last command prev leads h.fair h.facts h.author in
      record {
        log = IsLog-append s.raft_log (e ∷ []) h.log (refl, q, tt);
        committed = omega (arith, h.committed, index-add s.raft_log e);
        begun = h.begun;
        posted = h.posted;
        queued = h.queued;
        fair = h.fair;
        book = f ∷ h.book;
        facts =
            made-IsBook me n heard h.book (ballot s) last command prev leads h.fair h.facts
              h.author;
        author = rw (index-add s.raft_log e) (
            made-IsAuthor me n heard h.book (ballot s) last command prev leads h.fair h.facts
              h.author);
        chained =
            Chain-add (f ∷ h.book) s.raft_log e (me, inl refl)
              (Chain-more h.book (f ∷ h.book) (λ g i. inr i) s.raft_log h.chained);
        linked = AllLinked-more h.book (f ∷ h.book) (λ g i. inr i) s.sent h.linked;
      }

  add_noop-IsSound :
      (s : Peer)
      → is_leader s.raft_state ≡ true
      → IsSound me n heard s
      → IsSound me n heard (add_noop s)
  unfolding add_noop
  add_noop-IsSound s leads h =
      IsSound-same me n heard _ _ (grown-IsSound s (no_op ∷ []) refl leads h) refl refl refl refl
        refl

  reset_indexes-state :
      (now : ℕ) (nodes : List Addr) (s : Peer)
      → (reset_indexes now nodes s).raft_state ≡ s.raft_state
  unfolding reset_indexes
  reset_indexes-state now [] s = refl
  reset_indexes-state now (addr ∷ more) s = reset_indexes-state now more _

  take_lead-IsSound :
      (clock : Clock) (s : Peer)
      → is_candidate s.raft_state ≡ true
      → is_majority s.votes_count s.nodes ≡ true
      → IsSound me n heard s
      → IsSound me n heard (take_lead clock s)
  unfolding take_lead
  take_lead-IsSound clock s standing m h =
      let s' = record s {
        raft_leader = s.self_node_addr;
        raft_state = leader;
        last_response_time = [];
      } in
      add_noop-IsSound (reset_indexes clock.now (s.nodes ++ s.readonly_nodes) s')
        (ap is_leader (reset_indexes-state clock.now (s.nodes ++ s.readonly_nodes) s'))
        (reset_indexes-IsSound clock.now (s.nodes ++ s.readonly_nodes) s' (
          IsSound-ballot s s' h refl refl refl refl
            (by_majority me n heard (ballot s) h.fair (candidate-standing s.raft_state standing)
              (ground (arith, h.fair.size)))
            (λ book facts a.
              elected-IsAuthor me book (ballot s) _ a n heard h.fair facts standing
                (ground (arith, h.fair.size)))))

  on_become_leader-at :
      (clock : Clock) (s : Peer)
      → IsSound me n heard (take_lead clock s)
      → IsSound me n heard (on_become_leader clock s).1
  unfolding on_become_leader
  on_become_leader-at clock s h =
      (Keeps-bind _ (λ _. send_append_entries clock)
          (Keeps-if C.use_batch (pure tt) (send_append_entries clock) (Keeps-pure tt)
            (send_append_entries-IsSound me n heard clock))
          (λ _. send_append_entries-IsSound me n heard clock)).at
        (take_lead clock s) h

  pub lead_if_elected-at :
      (clock : Clock) (s : Peer)
      → is_candidate s.raft_state ≡ true
      → IsSound me n heard s
      → IsSound me n heard (lead_if_elected clock s).1
  unfolding lead_if_elected
  lead_if_elected-at clock s standing h = elim (Bool-cases (is_majority s.votes_count s.nodes)) [
    | inl m ↦ rw m (on_become_leader-at clock s (take_lead-IsSound clock s standing m h))
    | inr few ↦ rw few h
  ]

  fail_all-state : (waiting : Dict ℕ) (s : Peer) → (fail_all waiting s).raft_state ≡ s.raft_state
  unfolding fail_all call
  fail_all-state [] s = refl
  fail_all-state ((id, f) ∷ more) s = fail_all-state more (call f leader_changed s)

  node_send-state :
      (to : Addr) (p : Packet) (s : Peer) → (node_send to p s).raft_state ≡ s.raft_state
  unfolding node_send
  node_send-state to p s = ground arith

  request_votes-state :
      (nodes : List Addr) (s : Peer) → (request_votes nodes s).raft_state ≡ s.raft_state
  unfolding request_votes
  request_votes-state [] s = refl
  request_votes-state (addr ∷ more) s = request_votes-state more _ ∙ node_send-state addr _ s

  stand-standing : (clock : Clock) (s : Peer) → is_candidate (stand clock me s).raft_state ≡ true
  unfolding stand on_leader_changed begin_term
  stand-standing clock s =
      let asking = request_votes s.nodes (begin_term clock me s) in
      subst (λ state. is_candidate state ≡ true)
        (sym (
          fail_all-state asking.commands_waiting_reply asking
          ∙ request_votes-state s.nodes (begin_term clock me s)))
        refl

  elect_as-IsSound : (clock : Clock) → Keeps (IsSound me n heard) (elect_as clock (some me))
  unfolding elect_as
  elect_as-IsSound clock = record {
    at = λ s h. elim (Bool-cases (elects clock s)) [
      | inl late ↦ rw late (
          lead_if_elected-at clock (stand clock me s) (stand-standing clock s)
            (stand-IsSound clock s h))
      | inr early ↦ rw early h
    ];
  }

  pub election_tick-IsSound : (clock : Clock) → Keeps (IsSound me n heard) (election_tick clock)
  unfolding election_tick
  election_tick-IsSound clock = record {
    at = λ s h.
        subst (λ o. IsSound me n heard (elect_as clock o s).1) (sym h.fair.self)
          ((elect_as-IsSound clock).at s h);
  }
