-- ===== src/Raft/Tick/Commit.antt =====
-- How far a leader moves its commit index.
use belcoin.Prelude.{
  ℕ, zero, suc, ◌+◌, ◌-◌, ◌*◌, ◌≤◌, ◌<◌, ◌≡◌, refl, ◌∙◌, true, false, none, some, List, [], ◌∷◌,
  ltb, leb, if◌then◌else◌, arith, length, Bool-cases, inl, inr,
}
use mathlib.Core.Path.{subst}
use belcoin.Dict.{Dict, lookup}
use belcoin.Raft.{Addr}
use belcoin.Raft.Election.{is_majority}
use belcoin.Raft.Tick.{count_where, commit_loop}

-- Every node has a value.
abbrev pub Known : List Addr → Dict ℕ → Type 0
Known [] d = Unit
Known (addr ∷ more) d = ((v : ℕ) × (lookup addr d ≡ some v)) × Known more d

-- How many of the nodes are known to have the entry at a place
pub stored : ℕ → List Addr → Dict ℕ → ℕ
stored place [] d = 0
stored place (addr ∷ more) d =
    stored place more d
    + (elim (lookup addr d) [ none ↦ 0 | some v ↦ if leb place v then 1 else 0 ])

-- The nodes that have it, the leader among them, are more than half of the cluster.
abbrev pub InMajority : ℕ → List Addr → Dict ℕ → Type 0
InMajority place nodes d = length nodes + 1 < 2 * (stored place nodes d + 1)

count-stored :
    (place : ℕ) (nodes : List Addr) (d : Dict ℕ)
    → Known nodes d
    → count_where (leb place) nodes d ≡ some (stored place nodes d)
unfolding count_where stored
count-stored place [] d k = refl
count-stored place (addr ∷ more) d ((v, e), k) =
    rw (e, count_where) (ground (arith, count-stored place more d k))

-- What the loop returns: the last place up to which every entry is in a majority
pub record IsLast (last commit c : ℕ) (nodes : List Addr) (d : Dict ℕ) : Type 0 where
  pub not_back : commit ≤ c
  pub within : c ≤ last
  pub committed : (place : ℕ) → commit < place → place ≤ c → InMajority place nodes d
  pub no_further : c < last → InMajority (c + 1) nodes d → ⊥

one_further :
    (last commit c place : ℕ) (nodes : List Addr) (d : Dict ℕ)
    → InMajority (commit + 1) nodes d
    → IsLast last (commit + 1) c nodes d
    → commit < place
    → place ≤ c
    → InMajority place nodes d
one_further last commit c place nodes d m l lt le = elim (Bool-cases (ltb (commit + 1) place)) [
  | inl later ↦ l.committed place (ground arith) le
  | inr next ↦ subst (λ p. InMajority p nodes d) (ground arith) m
]

loop-IsLast :
    (fuel last commit : ℕ) (nodes : List Addr) (d : Dict ℕ)
    → Known nodes d
    → commit ≤ last
    → last - commit ≡ fuel
    → (c : ℕ) × (commit_loop fuel last commit nodes d ≡ some c) × IsLast last commit c nodes d
unfolding commit_loop
loop-IsLast zero last commit nodes d k le e = (
  commit,
  refl,
  record {
    not_back = omega arith;
    within = le;
    committed = λ place lt up. absurd (omega arith);
    no_further = λ lt _. omega arith;
  },
)
loop-IsLast (suc fuel) last commit nodes d k le e =
    elim (Bool-cases (is_majority (stored (commit + 1) nodes d + 1) nodes)) [
      | inl most ↦
          let (c, q, l) =
            loop-IsLast fuel last (commit + 1) nodes d k (omega arith) (omega arith) in
          (
            c,
            goes_on most ∙ q,
            record {
              not_back = omega (arith, l.not_back);
              within = l.within;
              committed =
                  λ place lt up. one_further last commit c place nodes d (ground arith) l lt up;
              no_further = l.no_further;
            },
          )
      | inr few ↦ (
        commit,
        stops few,
        record {
          not_back = omega arith;
          within = le;
          committed = λ place lt up. absurd (omega arith);
          no_further = λ lt m. ground arith;
        },
      )
    ]
  where
    before : ltb commit last ≡ true
    before = ground arith

    goes_on :
        is_majority (stored (commit + 1) nodes d + 1) nodes ≡ true
        → commit_loop (suc fuel) last commit nodes d ≡ commit_loop fuel last (commit + 1) nodes d
    goes_on most =
        rw (before, commit_loop)
          (rw (count-stored (commit + 1) nodes d k, commit_loop) (rw (most, commit_loop) refl))

    stops :
        is_majority (stored (commit + 1) nodes d + 1) nodes ≡ false
        → commit_loop (suc fuel) last commit nodes d ≡ some commit
    stops few =
        rw (before, commit_loop)
          (rw (count-stored (commit + 1) nodes d k, commit_loop) (rw (few, commit_loop) refl))

-- The loop that moves a leader's commit index ends by its own test, without a KeyError where each node
-- has a match index, and where the commit index is within the log. The index that it reaches is
-- neither before the old one nor after the end of the log; each entry between the old index and it is
-- stored by a majority, the leader counted, by the match indexes; and the next entry is not, if there
-- is one.
pub commit_loop-IsLast :
    (last commit : ℕ) (nodes : List Addr) (d : Dict ℕ)
    → commit ≤ last
    → Known nodes d
    → (c : ℕ) × (commit_loop (last - commit) last commit nodes d ≡ some c)
      × IsLast last commit c nodes d
commit_loop-IsLast last commit nodes d le k =
    loop-IsLast (last - commit) last commit nodes d k le refl
