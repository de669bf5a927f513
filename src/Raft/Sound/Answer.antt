-- ===== src/Raft/Sound/Answer.antt =====
-- An answer to a request for votes keeps what holds of every node.
use belcoin.Raft.Log.Chain.{Fact}
use belcoin.Prelude.{
  In, ◌*◌, ◌<◌, ◌≢◌, ℕ, ◌+◌, ◌≤◌, ◌≡◌, refl, true, ◌&&◌, List, arith, ◌==◌, Bool-cases, inl, inr,
}
use mathlib.Core.Path.{subst}
use belcoin.Raft.{Setup, Peer, Clock, is_candidate}
use belcoin.Raft.Election.{on_response_vote}
use belcoin.Raft.Sound.{IsBook, Heard, IsBook, answers, IsSound, ballot}
use belcoin.Raft.Sound.Authors.{counted-IsAuthor}
use belcoin.Raft.Log.Chain.{Fact}
use belcoin.Raft.Sound.Votes.{heard_more, count_vote}
use belcoin.Raft.Sound.Lead.{lead_if_elected-at}

-- An answer, of which `heard'` knows and `heard` does not yet, is counted.
module _ ⦃C : Setup⦄ (me n : ℕ) (heard heard' : Heard)
    (more : (t : ℕ) → heard.count t ≤ heard'.count t) (same_book : heard'.book ≡ heard.book)
    (rivals : (f : Fact)
      → In f heard'.book
      → f.author ≢ me
      → n < 2 * (heard'.count f.term + 1)
      → heard'.gave f.author f.term ≡ true) where
  more_facts : (book : List Fact) → IsBook me n heard book → IsBook me n heard' book
  more_facts book b = record {
    keeps = rw same_book b.keeps;
    wrote = rw same_book b.wrote;
    won = λ f i a. omega (arith, b.won f i a, more f.term);
    single = b.single;
    rivals = rivals;
  }

  pub IsSound-more :
      (s : Peer)
      → ((c t : ℕ) → heard'.gave c t ≡ true → In (c, t) (answers s.sent))
      → (h : IsSound me n heard s) → (h' : IsSound me n heard' s) × (h'.book ≡ h.book)
  IsSound-more s same h = (
    record {
      log = h.log;
      committed = h.committed;
      begun = h.begun;
      posted = h.posted;
      queued = h.queued;
      fair = heard_more me n heard (ballot s) h.fair heard' more same;
      book = h.book;
      facts = more_facts h.book h.facts;
      author = h.author;
      chained = h.chained;
      linked = h.linked;
    },
    refl,
  )

  counted-IsSound :
      (s : Peer)
      → heard'.count s.raft_current_term ≡ heard.count s.raft_current_term + 1
      → ((c t : ℕ) → heard'.gave c t ≡ true → In (c, t) (answers s.sent))
      → IsSound me n heard s
      → IsSound me n heard' (record s { votes_count = s.votes_count + 1 })
  counted-IsSound s q same h = record {
    log = h.log;
    committed = h.committed;
    begun = h.begun;
    posted = h.posted;
    queued = h.queued;
    fair = count_vote me n heard (ballot s) h.fair heard' more same q;
    book = h.book;
    facts = more_facts h.book h.facts;
    author = counted-IsAuthor me h.book (ballot s) _ h.author;
    chained = h.chained;
    linked = h.linked;
  }

  pub on_response_vote-IsSound :
      (clock : Clock) (term : ℕ) (s : Peer)
      → heard'.count term ≡ heard.count term + 1
      → ((c t : ℕ) → heard'.gave c t ≡ true → In (c, t) (answers s.sent))
      → IsSound me n heard s
      → IsSound me n heard' (on_response_vote clock term s).1
  unfolding on_response_vote
  on_response_vote-IsSound clock term s q same h =
      elim (Bool-cases (is_candidate s.raft_state && (term == s.raft_current_term))) [
        | inr other ↦ rw other (IsSound-more s same h).0
        | inl mine ↦ rw mine (
            lead_if_elected-at me n heard' clock (record s { votes_count = s.votes_count + 1 })
              (ground arith)
              (counted-IsSound s (subst (λ t. heard'.count t ≡ heard.count t + 1) (ground arith) q)
                same h))
      ]
