-- ===== src/Raft/Sound/Votes.antt =====
-- How the votes of a node stay fair when its term, its state or its vote changes.
use belcoin.Prelude.{
  ℕ, ◌+◌, ◌*◌, ◌<◌, ◌≤◌, ◌≡◌, refl, true, false, Option, none, some, ◌∷◌, arith, In, inl, inr,
}
use belcoin.Raft.{Addr, follower, candidate, leader}
use belcoin.Raft.Sound.{Heard, Ballot, IsFair, is_follower}

module _ (me n : ℕ) (heard : Heard) (b : Ballot) (h : IsFair me n heard b) where
  -- A later term
  pub later_term :
      (t : ℕ)
      → b.term < t
      → IsFair me n heard (record b { term = t; voted_for = none; state = follower })
  later_term t lt = record {
    size = h.size;
    self = h.self;
    past = λ c u i. omega (arith, h.past c u i);
    own = λ c u i e. absurd (omega (arith, h.past c u i));
    one = h.one;
    kept = h.kept;
    stands = λ e. cc;
    counted = λ e. cc;
    elected = λ e. cc;
  }

  pub step_down : IsFair me n heard (record b { state = follower })
  step_down = record {
    size = h.size;
    self = h.self;
    past = h.past;
    own = h.own;
    one = h.one;
    kept = h.kept;
    stands = λ e. cc;
    counted = λ e. cc;
    elected = λ e. cc;
  }

  pub own_term :
      IsFair me n heard
        (record b { term = b.term + 1; voted_for = some me; state = candidate; votes = 1 })
  own_term = record {
    size = h.size;
    self = h.self;
    past = λ c u i. omega (arith, h.past c u i);
    own = λ c u i e. absurd (omega (arith, h.past c u i));
    one = h.one;
    kept = h.kept;
    stands = λ e. refl;
    counted = λ e. omega arith;
    elected = λ e. cc;
  }

  pub by_majority :
      is_follower b.state ≡ false
      → n < 2 * b.votes
      → IsFair me n heard (record b { state = leader })
  by_majority e m = record {
    size = h.size;
    self = h.self;
    past = h.past;
    own = h.own;
    one = h.one;
    kept = h.kept;
    stands = λ _. h.stands e;
    counted = λ _. h.counted e;
    elected = λ _. omega (arith, h.counted e);
  }

  module _ (free : b.voted_for ≡ none) where
    no_vote_yet : (c t : ℕ) → In (c, t) b.answers → t ≡ b.term → ⊥
    no_vote_yet c t i e = cc (h.own c t i e, free)

    following : is_follower b.state ≡ false → ⊥
    following e = cc (h.stands e, free)

    -- A vote that does not reach anyone
    pub lost_vote : (c : Addr) → IsFair me n heard (record b { voted_for = some c })
    lost_vote c = record {
      size = h.size;
      self = h.self;
      past = h.past;
      own = λ d t i e. absurd (no_vote_yet d t i e);
      one = h.one;
      kept = h.kept;
      stands = λ e. absurd (following e);
      counted = h.counted;
      elected = h.elected;
    }

    new_past : (c d t : ℕ) → In (d, t) ((c, b.term) ∷ b.answers) → t ≤ b.term
    new_past c d t (inl e) = ground (arith, e)
    new_past c d t (inr i) = h.past d t i

    new_own :
        (c d t : ℕ)
        → In (d, t) ((c, b.term) ∷ b.answers)
        → t ≡ b.term
        → ◌≡◌ {A = Option Addr} (some c) (some d)
    new_own c d t (inl e) f = ground (arith, e)
    new_own c d t (inr i) f = absurd (no_vote_yet d t i f)

    new_one :
        (c d e t : ℕ)
        → In (d, t) ((c, b.term) ∷ b.answers)
        → In (e, t) ((c, b.term) ∷ b.answers)
        → d ≡ e
    new_one c d e t (inl p) (inl q) = ground (arith, p, q)
    new_one c d e t (inl p) (inr j) = absurd (no_vote_yet e t j (ground (arith, p)))
    new_one c d e t (inr i) (inl q) = absurd (no_vote_yet d t i (ground (arith, q)))
    new_one c d e t (inr i) (inr j) = h.one d e t i j

    pub new_vote :
        (c : Addr)
        → IsFair me n heard (record b { answers = (c, b.term) ∷ b.answers; voted_for = some c })
    new_vote c = record {
      size = h.size;
      self = h.self;
      past = new_past c;
      own = new_own c;
      one = new_one c;
      kept = λ d t g. inr (h.kept d t g);
      stands = λ e. absurd (following e);
      counted = h.counted;
      elected = h.elected;
    }

  -- One more of the others is heard of.
  module _ (heard' : Heard) (more : (t : ℕ) → heard.count t ≤ heard'.count t)
      (same : (c t : ℕ) → heard'.gave c t ≡ true → In (c, t) b.answers) where
    pub heard_more : IsFair me n heard' b
    heard_more = record {
      size = h.size;
      self = h.self;
      past = h.past;
      own = h.own;
      one = h.one;
      kept = same;
      stands = h.stands;
      counted = λ e. omega (arith, h.counted e, more b.term);
      elected = λ e. omega (arith, h.elected e, more b.term);
    }

    pub count_vote :
        heard'.count b.term ≡ heard.count b.term + 1
        → IsFair me n heard' (record b { votes = b.votes + 1 })
    count_vote q = record {
      size = h.size;
      self = h.self;
      past = h.past;
      own = h.own;
      one = h.one;
      kept = same;
      stands = h.stands;
      counted = λ e. omega (arith, h.counted e);
      elected = λ e. omega (arith, h.elected e);
    }
