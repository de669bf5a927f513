-- ===== src/Raft/Network/Safety.antt =====
-- What holds of the leaders and of the logs in every state of the network.
use belcoin.Prelude.{
  ℕ, ◌+◌, ◌*◌, ◌≤◌, ◌<◌, ◌≡◌, ◌≢◌, refl, sym, ◌∙◌, Bool, true, false, ◌||◌, ◌==◌, Option, some,
  arith, inl, inr, Bool-cases,
}
use mathlib.Core.Path.{subst}
use belcoin.Raft.{Addr, Setup, RaftState, leader, follower, candidate, is_leader}
use belcoin.Raft.Log.{first_idx, current_log_index}
use belcoin.Raft.Log.Laws.{IsLog}
use belcoin.Raft.Sound.{is_follower}
use belcoin.Raft.Log.Chain.{Chain-index}
use belcoin.Raft.Network.{Network, Reach}
use belcoin.Raft.Network.Tally.{tally}
use belcoin.Raft.Network.Books.{IsGood, majorities}
use belcoin.Raft.Network.Good.{Reach-IsGood}

some_eq : (c d : Addr) → ◌≡◌ {A = Option Addr} (some c) (some d) → c ≡ d
some_eq c d e = cc

leading : (state : RaftState) → is_leader state ≡ true → is_follower state ≡ false
leading leader e = refl
leading follower e = cc
leading candidate e = cc

module _ ⦃C : Setup⦄ (n : ℕ) where
  -- In every state of the network, two nodes that lead in one term are the same node, where `n` nodes
  -- tick and exchange messages of any kind but pieces of entries and dumps, in any order, with losses
  -- and repetitions but of answers to requests for votes, and where no command changes the cluster.
  pub one_leader :
      {N : Network C.Serializer} (c d : ℕ)
      → Reach n N
      → c < n
      → d < n
      → is_leader (N.peers c).raft_state ≡ true
      → is_leader (N.peers d).raft_state ≡ true
      → (N.peers c).raft_current_term ≡ (N.peers d).raft_current_term
      → c ≡ d
  one_leader {N} c d r lc ld leads_c leads_d same = elim (Bool-cases (c == d)) [
    | inl e ↦ ground arith
    | inr e ↦ absurd (two_majorities (λ q. distinct e q))
  ]
    where
      distinct : (c == d) ≡ false → c ≡ d → ⊥
      distinct e q = ground arith

      g : IsGood n N
      g = Reach-IsGood n r

      term : ℕ
      term = (N.peers c).raft_current_term

      votes_of : ℕ → ℕ → Bool
      votes_of c v = (c == v) || N.delivered v c term

      -- A leader gives its vote to itself.
      own_vote :
          (c d : ℕ)
          → c < n
          → is_leader (N.peers c).raft_state ≡ true
          → (N.peers c).raft_current_term ≡ term
          → N.delivered c d term ≡ true
          → c ≡ d
      own_vote c d lc leads e gave =
          let f = (g.sound c lc).fair in
          some_eq c d (
            sym (f.stands (leading (N.peers c).raft_state leads))
            ∙ f.own d term (f.kept d term gave) (sym e))

      once : (v : ℕ) → v < n → votes_of c v ≡ true → votes_of d v ≡ true → c ≡ d
      once v lv vc vd = elim (Bool-cases (N.delivered v c term)) [
        | inl to_c ↦ elim (Bool-cases (N.delivered v d term)) [
          | inl to_d ↦
              let f = (g.sound v lv).fair in
              f.one c d term (f.kept c term to_c) (f.kept d term to_d)
          | inr other ↦
              let q : d ≡ v = ground arith in
              sym (
                own_vote d c ld leads_d (sym same)
                  (subst (λ v. N.delivered v c term ≡ true) (sym q) to_c))
        ]
        | inr not_c ↦
            let q : c ≡ v = ground arith in
            elim (Bool-cases (N.delivered v d term)) [
              | inl to_d ↦
                  own_vote c d lc leads_c refl
                    (subst (λ v. N.delivered v d term ≡ true) (sym q) to_d)
              | inr other ↦ ground arith
            ]
      ]

      two_majorities : c ≢ d → ⊥
      two_majorities ne =
          majorities n c d term N.delivered lc ld g.apart (λ v lv vc vd. ne (once v lv vc vd))
            ((g.sound c lc).fair.elected leads_c)
            (subst (λ t. n < 2 * (tally n (λ v. N.delivered v d t) + 1)) (sym same)
              ((g.sound d ld).fair.elected leads_d))

  -- In every state of that network, the log of a node has an entry, its entries stand at consecutive
  -- places, none of its commands changes the cluster, and the commit index lies
  -- between the places of its first and of its last entry.
  pub raft_log-IsLog :
      {N : Network C.Serializer} (i : ℕ)
      → Reach n N
      → i < n
      → IsLog (N.peers i).raft_log
        × (first_idx (N.peers i).raft_log ≤ (N.peers i).raft_commit_index)
        × ((N.peers i).raft_commit_index ≤ current_log_index (N.peers i).raft_log)
  raft_log-IsLog {N} i r lt =
      let h = (Reach-IsGood n r).sound i lt in
      (
        h.log,
        omega (arith, h.begun, (Chain-index h.book (N.peers i).raft_log h.log h.chained).0),
        h.committed,
      )
