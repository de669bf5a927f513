-- ===== src/Raft/Sound/Grant.antt =====
-- A request for votes keeps what holds of every node.
use belcoin.Prelude.{
  ℕ, ◌+◌, ◌≤◌, ◌≡◌, refl, true, none, some, ◌∷◌, ◌++◌, arith, ltb, elem, Bool-cases, inl, inr,
  is_some,
}
use mathlib.Core.Path.{subst}
use belcoin.Raft.{Addr, Setup, Peer, Clock, response_vote, send, node_send}
use belcoin.Raft.Election.{see_term, grants, vote, on_request_vote}
use belcoin.Raft.Sound.{Heard, answers, IsSound, IsFair, ballot}
use belcoin.Raft.Sound.Authors.{later-IsAuthor, lost-IsAuthor, answer-IsAuthor}
use belcoin.Raft.Sound.Votes.{later_term, lost_vote, new_vote}
use belcoin.Raft.Sound.Lead.{IsSound-ballot}

module _ ⦃C : Setup⦄ (me n : ℕ) (heard : Heard) where
  see_term-IsSound :
      (term : ℕ) (s : Peer) → IsSound me n heard s → IsSound me n heard (see_term term s)
  unfolding see_term
  see_term-IsSound term s h = elim (Bool-cases (ltb s.raft_current_term term)) [
    | inl later ↦ rw later (
        IsSound-ballot me n heard s _ h refl refl refl refl
          (later_term me n heard (ballot s) h.fair term (ground arith))
          (λ book facts a. later-IsAuthor me book (ballot s) _ a term (ground arith)))
    | inr now ↦ rw now h
  ]

  see_term-le : (term : ℕ) (s : Peer) → term ≤ (see_term term s).raft_current_term
  unfolding see_term
  see_term-le term s = ground arith

  vote-IsSound :
      (clock : Clock) (from : Addr) (s : Peer)
      → s.voted_for ≡ none
      → IsSound me n heard s
      → IsSound me n heard (vote clock from s.raft_current_term s)
  unfolding vote send node_send
  vote-IsSound clock from s free h =
      let s' = record s {
        voted_for = some from;
        raft_election_deadline = clock.now + clock.timeout;
      } in
      sent-IsSound s'
        (IsSound-ballot me n heard s s' h refl refl refl refl
          (lost_vote me n heard (ballot s) h.fair free from)
          (λ book facts a. lost-IsAuthor me book (ballot s) _ a free from))
        (new_vote me n heard (ballot s) h.fair free from) refl
    where
      -- A vote is given already, and fair whether it is sent or not.
      sent-IsSound :
          (s' : Peer)
          → IsSound me n heard s'
          → IsFair me n heard
              (record (ballot s') { answers = (from, s'.raft_current_term) ∷ answers s'.sent })
          → s'.voted_for ≡ some from
          → IsSound me n heard (send from (response_vote s'.raft_current_term) s')
      sent-IsSound s' h f given = elim (Bool-cases (elem from (s'.nodes ++ s'.readonly_nodes))) [
        | inr other ↦ rw other h
        | inl known ↦ rw known (elim (Bool-cases (elem from s'.connected)) [
          | inr down ↦ rw down h
          | inl up ↦ rw up (record {
            log = h.log;
            committed = h.committed;
            begun = h.begun;
            posted = (tt, h.posted);
            queued = h.queued;
            fair = f;
            book = h.book;
            facts = h.facts;
            author = answer-IsAuthor me h.book (ballot s') _ h.author from given;
            chained = h.chained;
            linked = (tt, h.linked);
          })
        ])
      ]

  pub on_request_vote-IsSound :
      (clock : Clock) (from : Addr) (term last_idx last_term : ℕ) (s : Peer)
      → IsSound me n heard s
      → IsSound me n heard (on_request_vote clock from term last_idx last_term s)
  unfolding on_request_vote
  on_request_vote-IsSound clock from term last_idx last_term s0 h =
      elim (Bool-cases (is_some s0.self_node_addr)) [
        | inr reader ↦ rw reader h
        | inl voter ↦
            rw voter (elim (Bool-cases (grants term last_idx last_term (see_term term s0))) [
              | inr no_vote ↦ rw no_vote (see_term-IsSound term s0 h)
              | inl yes_vote ↦ rw yes_vote (
                  given (see_term term s0) (see_term-le term s0) yes_vote
                    (see_term-IsSound term s0 h))
            ])
      ]
    where
      given :
          (s : Peer)
          → term ≤ s.raft_current_term
          → grants term last_idx last_term s ≡ true
          → IsSound me n heard s
          → IsSound me n heard (vote clock from term s)
      given s le g h =
          subst (λ t. IsSound me n heard (vote clock from t s)) (ground arith)
            (vote-IsSound clock from s (ground arith) h)
