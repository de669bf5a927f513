-- ===== src/Raft/Sound/Authors.antt =====
-- How a node that makes entries keeps what holds of them when its term, its state or its vote changes.
use belcoin.Prelude.{
  ℕ, ◌+◌, ◌*◌, ◌<◌, ◌≤◌, ◌≡◌, ◌≢◌, refl, sym, ap, ◌∙◌, true, false, Option, none, some, List, ◌∷◌,
  arith, In, inl, inr, Bool-cases, ◌==◌,
}
use mathlib.Core.Path.{subst}
use belcoin.Codec.{Octets}
use belcoin.Raft.{Addr, RaftState, follower, candidate, leader, is_leader, is_candidate}
use belcoin.Raft.Log.Chain.{Fact}
use belcoin.Raft.Sound.{Heard, Ballot, IsFair, IsBook, IsAuthor, is_follower}

pub candidate-standing : (state : RaftState) → is_candidate state ≡ true → is_follower state ≡ false
candidate-standing candidate e = refl
candidate-standing follower e = cc
candidate-standing leader e = refl

pub leader-standing : (state : RaftState) → is_leader state ≡ true → is_follower state ≡ false
leader-standing candidate e = refl
leader-standing follower e = cc
leader-standing leader e = refl

leader-candidate : (state : RaftState) → is_leader state ≡ true → is_candidate state ≡ false
leader-candidate candidate e = cc
leader-candidate follower e = refl
leader-candidate leader e = refl

some-eq : (c d : Addr) → ◌≡◌ {A = Option Addr} (some c) (some d) → c ≡ d
some-eq c d e = cc

-- A node with a majority made the entries of its term itself.
pub no_rival :
    (me n : ℕ) (heard : Heard) (book : List Fact) (b : Ballot)
    → IsFair me n heard b
    → IsBook me n heard book
    → is_follower b.state ≡ false
    → n < 2 * (heard.count b.term + 1)
    → (f : Fact) → In f book
    → f.term ≡ b.term
    → f.author ≡ me
no_rival me n heard book b fair facts e m f i q = elim (Bool-cases (f.author == me)) [
  | inl same ↦ ground arith
  | inr other ↦
      let ne : f.author ≢ me = λ p. ground arith in
      let g =
        facts.rivals f (facts.wrote f i ne) ne
          (subst (λ t. n < 2 * (heard.count t + 1)) (sym q) m) in
      some-eq f.author me
        (sym (fair.own f.author f.term (fair.kept f.author f.term g) q) ∙ fair.stands e)
]

module _ (me : ℕ) (book : List Fact) (b : Ballot) (last : ℕ) (h : IsAuthor me book b last) where
  pub later-IsAuthor :
      (t : ℕ)
      → b.term < t
      → IsAuthor me book (record b { term = t; voted_for = none; state = follower }) last
  later-IsAuthor t lt = record {
    mine = λ f i a. omega (arith, h.mine f i a);
    claimed = λ f i a q. absurd (omega (arith, h.mine f i a));
    proper = h.proper;
    candid = λ f i a e. cc;
    leading = λ f i e. cc;
  }

  -- Who does not lead may have any log.
  pub led-IsAuthor : is_leader b.state ≡ false → (l : ℕ) → IsAuthor me book b l
  led-IsAuthor e l = record {
    mine = h.mine;
    claimed = h.claimed;
    proper = h.proper;
    candid = h.candid;
    leading = λ f i g q. absurd (cc (g, e));
  }

  pub down-IsAuthor : IsAuthor me book (record b { state = follower }) last
  down-IsAuthor = record {
    mine = h.mine;
    claimed = h.claimed;
    proper = h.proper;
    candid = λ f i a e. cc;
    leading = λ f i e. cc;
  }

  pub own-IsAuthor :
      IsAuthor me book
        (record b { term = b.term + 1; voted_for = some me; state = candidate; votes = 1 })
        last
  own-IsAuthor = record {
    mine = λ f i a. omega (arith, h.mine f i a);
    claimed = λ f i a q. refl;
    proper = h.proper;
    candid = λ f i a e q. omega (arith, h.mine f i a);
    leading = λ f i e. cc;
  }

  pub elected-IsAuthor :
      (n : ℕ) (heard : Heard)
      → IsFair me n heard b
      → IsBook me n heard book
      → is_candidate b.state ≡ true
      → n < 2 * b.votes
      → IsAuthor me book (record b { state = leader }) last
  elected-IsAuthor n heard fair facts e m = record {
    mine = h.mine;
    claimed = h.claimed;
    proper = h.proper;
    candid = λ f i a e. cc;
    leading = λ f i _ q. absurd (
        h.candid f i
          (no_rival me n heard book b fair facts (candidate-standing b.state e)
            (omega (arith, fair.counted (candidate-standing b.state e))) f i q)
          e q);
  }

  pub counted-IsAuthor : IsAuthor me book (record b { votes = b.votes + 1 }) last
  counted-IsAuthor = record {
    mine = h.mine;
    claimed = h.claimed;
    proper = h.proper;
    candid = h.candid;
    leading = h.leading;
  }

  module _ (free : b.voted_for ≡ none) where
    not_claimed : (f : Fact) → In f book → f.author ≡ me → f.term ≢ b.term
    not_claimed f i a q = cc (h.claimed f i a q, free)

    pub lost-IsAuthor : (c : Addr) → IsAuthor me book (record b { voted_for = some c }) last
    lost-IsAuthor c = record {
      mine = h.mine;
      claimed = λ f i a q. absurd (not_claimed f i a q);
      proper = h.proper;
      candid = h.candid;
      leading = h.leading;
    }

  -- The vote is sent.
  module _ (c : Addr) (given : b.voted_for ≡ some c) where
    answer_proper :
        (f : Fact)
        → In f book
        → f.author ≡ me
        → (x : Addr) → In (x, f.term) ((c, b.term) ∷ b.answers)
        → x ≡ me
    answer_proper f i a x (inl e) =
        let q : b.term ≡ f.term = ap (λ (m : Addr × ℕ). m.1) e in
        sym (ap (λ (m : Addr × ℕ). m.0) e) ∙ some-eq c me (sym given ∙ h.claimed f i a (sym q))
    answer_proper f i a x (inr j) = h.proper f i a x j

    pub answer-IsAuthor : IsAuthor me book (record b { answers = (c, b.term) ∷ b.answers }) last
    answer-IsAuthor = record {
      mine = h.mine;
      claimed = h.claimed;
      proper = answer_proper;
      candid = h.candid;
      leading = h.leading;
    }

-- A leader makes an entry.
module _ (me n : ℕ) (heard : Heard) (book : List Fact) (b : Ballot) (last : ℕ) (command : Octets)
    (prev : ℕ) (leads : is_leader b.state ≡ true) (fair : IsFair me n heard b)
    (facts : IsBook me n heard book) (h : IsAuthor me book b last) where
  abbrev pub made : Fact
  made = record { command = command; idx = last + 1; term = b.term; prev = prev; author = me }

  made-won : (f : Fact) → In f (made ∷ book) → f.author ≡ me → n < 2 * (heard.count f.term + 1)
  made-won f (inl e) a =
      subst (λ (f : Fact). n < 2 * (heard.count f.term + 1)) e (fair.elected leads)
  made-won f (inr i) a = facts.won f i a

  made-wrote : (f : Fact) → In f (made ∷ book) → f.author ≢ me → In f heard.book
  made-wrote f (inl e) ne = absurd (ne (subst (λ (f : Fact). f.author ≡ me) e refl))
  made-wrote f (inr i) ne = facts.wrote f i ne

  is_new : (g : Fact) → In g book → g.idx ≡ last + 1 → g.term ≢ b.term
  is_new g i p q = omega (arith, h.leading g i leads q)

  clash : (f g : Fact) → made ≡ f → In g book → f.idx ≡ g.idx → f.term ≡ g.term → ⊥
  clash f g e j p q =
      is_new g j (sym p ∙ subst (λ (f : Fact). f.idx ≡ last + 1) e refl)
        (sym q ∙ subst (λ (f : Fact). f.term ≡ b.term) e refl)

  made-single :
      (f g : Fact)
      → In f (made ∷ book)
      → In g (made ∷ book)
      → f.idx ≡ g.idx
      → f.term ≡ g.term
      → f ≡ g
  made-single f g (inl e) (inl d) p q = sym e ∙ d
  made-single f g (inl e) (inr j) p q = absurd (clash f g e j p q)
  made-single f g (inr i) (inl d) p q = absurd (clash g f d i (sym p) (sym q))
  made-single f g (inr i) (inr j) p q = facts.single f g i j p q

  pub made-IsBook : IsBook me n heard (made ∷ book)
  made-IsBook = record {
    keeps = λ f i. inr (facts.keeps f i);
    wrote = made-wrote;
    won = made-won;
    single = made-single;
    rivals = facts.rivals;
  }

  pub made-IsAuthor : IsAuthor me (made ∷ book) b (last + 1)
  made-IsAuthor = record {
    mine = mine;
    claimed = claimed;
    proper = proper;
    candid = λ f i a e q. cc (e, leader-candidate b.state leads);
    leading = leading;
  }
    where
      mine : (f : Fact) → In f (made ∷ book) → f.author ≡ me → f.term ≤ b.term
      mine f (inl e) a = subst (λ (f : Fact). f.term ≤ b.term) e (omega arith)
      mine f (inr i) a = h.mine f i a

      claimed :
          (f : Fact) → In f (made ∷ book) → f.author ≡ me → f.term ≡ b.term → b.voted_for ≡ some me
      claimed f (inl e) a q = fair.stands (leader-standing b.state leads)
      claimed f (inr i) a q = h.claimed f i a q

      proper :
          (f : Fact)
          → In f (made ∷ book)
          → f.author ≡ me
          → (x : Addr) → In (x, f.term) b.answers
          → x ≡ me
      proper f (inl e) a x j = some-eq x me (
          sym (fair.own x f.term j (subst (λ (f : Fact). f.term ≡ b.term) e refl))
          ∙ fair.stands (leader-standing b.state leads))
      proper f (inr i) a x j = h.proper f i a x j

      leading :
          (f : Fact)
          → In f (made ∷ book)
          → is_leader b.state ≡ true
          → f.term ≡ b.term
          → f.idx ≤ last + 1
      leading f (inl e) l q = subst (λ (f : Fact). f.idx ≤ last + 1) e (omega arith)
      leading f (inr i) l q = omega (arith, h.leading f i l q)
