-- ===== src/Raft/Network/Books.antt =====
-- One book for all nodes: what one node adds to it suits the others.
use belcoin.Prelude.{
  ℕ, ◌+◌, ◌*◌, ◌<◌, ◌≡◌, ◌≢◌, refl, sym, ◌∙◌, Bool, true, false, ◌||◌, ◌==◌, List, if◌then◌else◌,
  arith, In, inl, inr, Bool-cases, ltb,
}
use mathlib.Core.Path.{subst}
use belcoin.Raft.{Addr, Setup, Peer}
use belcoin.Raft.Log.Chain.{Fact, Within, Chain-more, AllLinked-more}
use belcoin.Raft.Sound.{Heard, IsSound, IsFair, IsBook, ballot}
use belcoin.Raft.Sound.Authors.{no_rival, leader-standing}
use belcoin.Raft.Network.{Network}
use belcoin.Raft.Network.Tally.{tally, tally-disjoint, tally-add}

-- What `me` has heard of, if the given answers were delivered
abbrev pub heard_of : ℕ → List Fact → (Addr → Addr → ℕ → Bool) → ℕ → Heard
heard_of n book delivered me = record {
  book = book;
  count = λ t. tally n (λ v. delivered v me t);
  gave = λ c t. delivered me c t;
}

pub inside : (n i : ℕ) → i < n → ◌≡◌ {A = ℕ} (if ltb i n then 1 else 0) 1
inside n i h = ground arith

-- Where nobody votes for both `k` and `c`, and neither for the other, they have no majorities each.
pub majorities :
    (n k c t : ℕ) (d : Addr → Addr → ℕ → Bool)
    → k < n
    → c < n
    → ((v u t : ℕ) → d v u t ≡ true → v ≢ u)
    → ((v : ℕ) → v < n → ((k == v) || d v k t) ≡ true → ((c == v) || d v c t) ≡ true → ⊥)
    → n < 2 * (tally n (λ v. d v k t) + 1)
    → n < 2 * (tally n (λ v. d v c t) + 1)
    → ⊥
majorities n k c t d lk lc apart clash mk mc = omega (
  arith,
  tally-disjoint n (λ v. (k == v) || d v k t) (λ v. (c == v) || d v c t) clash,
  tally-add n k (λ v. d v k t) (not_itself k),
  tally-add n c (λ v. d v c t) (not_itself c),
  inside n k lk,
  inside n c lc,
  mk,
  mc,
)
  where
    not_itself : (c : Addr) → d c c t ≡ false
    not_itself c = elim (Bool-cases (d c c t)) [ inl e ↦ absurd (apart c c t e refl) | inr e ↦ e ]

-- The makers of entries and their votes
module _ (n : ℕ) (d : Addr → Addr → ℕ → Bool) (book : List Fact)
    (apart : (v u t : ℕ) → d v u t ≡ true → v ≢ u)
    (once : (v c u t : ℕ) → v < n → d v c t ≡ true → d v u t ≡ true → c ≡ u)
    (known : (f : Fact) → In f book → f.author < n)
    (won : (f : Fact) → In f book → n < 2 * (tally n (λ v. d v f.author f.term) + 1))
    (proper : (f : Fact) → In f book → (x : Addr) → d f.author x f.term ≡ true → x ≡ f.author) where
  -- Another node with a majority in the term of an entry has voted for the maker.
  pub rivals_of :
      (k : ℕ) (f : Fact)
      → k < n
      → In f book
      → f.author ≢ k
      → n < 2 * (tally n (λ v. d v k f.term) + 1)
      → d k f.author f.term ≡ true
  rivals_of k f lk i ne m = elim (Bool-cases (d k f.author f.term)) [
    | inl gave ↦ gave
    | inr not ↦
        absurd (majorities n k f.author f.term d lk (known f i) apart (clash not) m (won f i))
  ]
    where
      clash :
          d k f.author f.term ≡ false
          → (v : ℕ) → v < n
          → ((k == v) || d v k f.term) ≡ true
          → ((f.author == v) || d v f.author f.term) ≡ true
          → ⊥
      clash not v lv vk vc = elim (Bool-cases (d v k f.term)) [
        | inl to_k ↦ elim (Bool-cases (d v f.author f.term)) [
          | inl to_c ↦ ne (once v f.author k f.term lv to_c to_k)
          | inr other ↦
              let q : v ≡ f.author = ground arith in
              ne (sym (proper f i k (subst (λ v. d v k f.term ≡ true) q to_k)))
        ]
        | inr not_k ↦
            let q : v ≡ k = ground arith in
            elim (Bool-cases (d v f.author f.term)) [
              | inl to_c ↦ cc (subst (λ v. d v f.author f.term ≡ true) q to_c, not)
              | inr other ↦ ne (ground arith)
            ]
      ]

module _ ⦃C : Setup⦄ (k n : ℕ) (heard : Heard) (more : List Fact) where
  -- The book of another node, with the own entries that stood there before
  pub rebased :
      (s : Peer) (h : IsSound k n heard s)
      → Within h.book more
      → ((f : Fact) → In f more → f.author ≡ k → In f h.book)
      → ((f g : Fact) → In f more → In g more → f.idx ≡ g.idx → f.term ≡ g.term → f ≡ g)
      → ((f : Fact)
          → In f more
          → f.author ≢ k
          → n < 2 * (heard.count f.term + 1)
          → heard.gave f.author f.term ≡ true)
      → (h' : IsSound k n (record heard { book = more }) s) × (h'.book ≡ more)
  rebased s h sub own single rivals =
      let fair : IsFair k n (record heard { book = more }) (ballot s) = record {
        size = h.fair.size;
        self = h.fair.self;
        past = h.fair.past;
        own = h.fair.own;
        one = h.fair.one;
        kept = h.fair.kept;
        stands = h.fair.stands;
        counted = h.fair.counted;
        elected = h.fair.elected;
      } in
      let facts : IsBook k n (record heard { book = more }) more = record {
        keeps = λ f i. i;
        wrote = λ f i ne. i;
        won = λ f i a. h.facts.won f (own f i a) a;
        single = single;
        rivals = rivals;
      } in
      (
        record {
          log = h.log;
          committed = h.committed;
          begun = h.begun;
          posted = h.posted;
          queued = h.queued;
          fair = fair;
          book = more;
          facts = facts;
          author = record {
            mine = λ f i a. h.author.mine f (own f i a) a;
            claimed = λ f i a. h.author.claimed f (own f i a) a;
            proper = λ f i a. h.author.proper f (own f i a) a;
            candid = λ f i a. h.author.candid f (own f i a) a;
            leading = λ f i l q.
                h.author.leading f
                  (own f i (
                    no_rival k n (record heard { book = more }) more (ballot s) fair facts
                      (leader-standing s.raft_state l) (h.fair.elected l) f i q))
                  l q;
          };
          chained = Chain-more h.book more sub s.raft_log h.chained;
          linked = AllLinked-more h.book more sub s.sent h.linked;
        },
        refl,
      )

module _ ⦃C : Setup⦄ (n : ℕ) where
  -- What holds of every node and of the answers in every state of the network
  pub record IsGood (N : Network C.Serializer) : Type 0 where
    pub book : List Fact
    pub sound : (k : ℕ) → k < n → IsSound k n (heard_of n book N.delivered k) (N.peers k)
    pub same : (k : ℕ) (lt : k < n) → (sound k lt).book ≡ book
    pub known : (f : Fact) → In f book → f.author < n
    pub apart : (v c t : ℕ) → N.delivered v c t ≡ true → v ≢ c

  -- Node `i` has added to the book, and the others have not.
  module _ (N : Network C.Serializer) (book : List Fact) (i : ℕ) (li : i < n)
      (at_i : IsSound i n (heard_of n book N.delivered i) (N.peers i))
      (others : (k : ℕ)
        → k < n
        → k ≢ i
        → (h : IsSound k n (heard_of n book N.delivered k) (N.peers k)) × (h.book ≡ book))
      (known : (f : Fact) → In f book → f.author < n)
      (apart : (v c t : ℕ) → N.delivered v c t ≡ true → v ≢ c) where
    node :
        (k : ℕ)
        → k < n
        → (h : IsSound k n (heard_of n book N.delivered k) (N.peers k)) × ((f : Fact)
            → In f at_i.book
            → f.author ≡ k
            → In f h.book)
          × Within h.book at_i.book
    node k lt = elim (Bool-cases (k == i)) [
      | inl same ↦
          subst
            (λ k.
              (h : IsSound k n (heard_of n book N.delivered k) (N.peers k)) × ((f : Fact)
                → In f at_i.book
                → f.author ≡ k
                → In f h.book)
              × Within h.book at_i.book)
            (ground arith) (at_i, (λ f j a. j), (λ f j. j))
      | inr other ↦
          let ne : k ≢ i = λ q. ground arith in
          let (h, q) = others k lt ne in
          (
            h,
            (λ f j a.
                subst (λ b. In f b) (sym q)
                  (at_i.facts.wrote f j (λ (p : f.author ≡ i). ne (sym a ∙ p)))),
            (λ f j. at_i.facts.keeps f (subst (λ b. In f b) q j)),
          )
    ]

    all_known : (f : Fact) → In f at_i.book → f.author < n
    all_known f j = elim (Bool-cases (f.author == i)) [
      | inl mine ↦ ground arith
      | inr other ↦ known f (at_i.facts.wrote f j (λ p. ground arith))
    ]

    rivals :
        (k : ℕ) (f : Fact)
        → k < n
        → In f at_i.book
        → f.author ≢ k
        → n < 2 * (tally n (λ v. N.delivered v k f.term) + 1)
        → N.delivered k f.author f.term ≡ true
    rivals =
        rivals_of n N.delivered at_i.book apart
          (λ v c u t lv p q.
            let f = (node v lv).0.fair in f.one c u t (f.kept c t p) (f.kept u t q))
          all_known
          (λ f j.
            let (h, own, sub) = node f.author (all_known f j) in h.facts.won f (own f j refl) refl)
          (λ f j x gave.
            let (h, own, sub) = node f.author (all_known f j) in
            h.author.proper f (own f j refl) refl x (h.fair.kept x f.term gave))

    settled :
        (k : ℕ)
        → k < n
        → (h : IsSound k n (heard_of n at_i.book N.delivered k) (N.peers k)) × (h.book ≡ at_i.book)
    settled k lt =
        let (h, own, sub) = node k lt in
        rebased k n (heard_of n book N.delivered k) at_i.book (N.peers k) h sub own
          at_i.facts.single (λ f j. rivals k f lt j)

    pub settle-IsGood : IsGood N
    settle-IsGood = record {
      book = at_i.book;
      sound = λ k lt. (settled k lt).0;
      same = λ k lt. (settled k lt).1;
      known = all_known;
      apart = apart;
    }
