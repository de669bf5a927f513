-- ===== src/Raft/Follow/Replaces.antt =====
-- What a message of a leader does to the log of a follower, told by the places and terms of entries.
use belcoin.Prelude.{
  ℕ, zero, suc, ◌+◌, ◌-◌, ◌≤◌, ◌<◌, ◌≡◌, refl, sym, ap, ◌∙◌, Bool, true, false, ◌&&◌, ◌||◌, Option,
  none, some, List, [], ◌∷◌, ◌++◌, ltb, leb, ◌==◌, if◌then◌else◌, arith, take, Bool-cases, inl, inr,
}
use mathlib.Core.Path.{subst}
use belcoin.Exec.{modify}
use belcoin.Dict.{Dict}
use belcoin.Raft.{Addr, Entry, Setup, Peer, Clock, Packet, call, send, node_send, leader_changed}
use belcoin.Raft.Log.{drop, first_idx, get_entries}
use belcoin.Raft.Log.Laws.{Run, IsLog, up_to, get_entries-IsFound, get_entries-Run}
use belcoin.Raft.Send.{send_next_node_idx}
use belcoin.Raft.Election.{fail_all, on_leader_changed}
use belcoin.Raft.Follow.{follow, set_commit, append_at, append_after, on_append_entries, next_node}
use belcoin.Raft.Sound.Accept.{after, Usual, Run-Usual, accepted, accept_lem}

-- Whether a log has an entry of a term at a place
abbrev pub holds : ℕ → ℕ → List Entry → Bool
holds place term [] = false
holds place term (e ∷ es) = ((e.idx == place) && (e.term == term)) || holds place term es

-- The entries at places up to a given one
abbrev pub keep_to : ℕ → List Entry → List Entry
keep_to place [] = []
keep_to place (e ∷ es) = let rest = keep_to place es in if leb e.idx place then e ∷ rest else rest

holds-before :
    (place term i : ℕ) (es : List Entry) → Run i es → place < i → holds place term es ≡ false
holds-before place term i [] h lt = refl
holds-before place term i (e ∷ es) (p, q, h) lt =
    ground (arith, holds-before place term (suc i) es h)

keep-before : (place i : ℕ) (es : List Entry) → Run i es → place < i → keep_to place es ≡ []
keep-before place i [] h lt = refl
keep-before place i (e ∷ es) (p, q, h) lt = ground (arith, keep-before place (suc i) es h)

-- Whether a list begins with an entry of a term
abbrev starts : ℕ → List Entry → Bool
starts term [] = false
starts term (e ∷ es) = e.term == term

holds-drop :
    (k term i place : ℕ) (es : List Entry)
    → Run i es
    → place ≡ i + k
    → holds place term es ≡ starts term (drop k es)
holds-drop zero term i place [] h at_k = refl
holds-drop (suc k) term i place [] h at_k = refl
holds-drop zero term i place (e ∷ es) (p, q, h) at_k =
    ground (arith, holds-before place term (suc i) es h)
holds-drop (suc k) term i place (e ∷ es) (p, q, h) at_k =
    ground (arith, holds-drop k term (suc i) place es h (omega arith))

keep-take :
    (k i place : ℕ) (es : List Entry)
    → Run i es
    → place ≡ i + k
    → keep_to place es ≡ take (suc k) es
keep-take k i place [] h at_k = refl
keep-take zero i place (e ∷ es) (p, q, h) at_k = ground (arith, keep-before place (suc i) es h)
keep-take (suc k) i place (e ∷ es) (p, q, h) at_k =
    ground (arith, keep-take k (suc i) place es h (omega arith))

holds-get :
    (place term : ℕ) (log : List Entry)
    → IsLog log
    → holds place term log ≡ starts term (get_entries (some place) log)
unfolding get_entries
holds-get place term [] h = elim h [ ]
holds-get place term (e ∷ es) h = elim (Bool-cases (ltb place e.idx)) [
  | inl early ↦ rw early (holds-before place term e.idx (e ∷ es) h (ground arith))
  | inr there ↦ rw there (holds-drop (place - e.idx) term e.idx place (e ∷ es) h (ground arith))
]

keep-up_to :
    (place : ℕ) (log : List Entry)
    → IsLog log
    → first_idx log ≤ place
    → keep_to place log ≡ up_to place log
keep-up_to place [] h le = elim h [ ]
keep-up_to place (e ∷ es) h le =
    let n : place + 1 - e.idx ≡ suc (place - e.idx) = omega arith in
    subst (λ n. keep_to place (e ∷ es) ≡ take n (e ∷ es)) (sym n)
      (keep-take (place - e.idx) e.idx place (e ∷ es) h (omega arith))

module _ ⦃C : Setup⦄ where
  fail_all-log : (waiting : Dict ℕ) (s : Peer) → (fail_all waiting s).raft_log ≡ s.raft_log
  unfolding fail_all call
  fail_all-log [] s = refl
  fail_all-log ((id, f) ∷ more) s = fail_all-log more (call f leader_changed s)

  follow-log :
      (clock : Clock) (from : Addr) (term commit : ℕ) (s : Peer)
      → (follow clock from term commit s).raft_log ≡ s.raft_log
  unfolding follow on_leader_changed
  follow-log clock from term commit s = ground (
    arith,
    fail_all-log s.commands_waiting_reply
        (record s { raft_election_deadline = clock.now + clock.timeout }),
  )

  send-log : (to : Addr) (p : Packet) (s : Peer) → (send to p s).raft_log ≡ s.raft_log
  unfolding send node_send
  send-log to p s = ground arith

  reply-log :
      (to : Addr) (reset : Bool) (idx : Option ℕ) (done : Bool) (s : Peer)
      → (send_next_node_idx to reset idx done s).raft_log ≡ s.raft_log
  unfolding send_next_node_idx
  reply-log to reset none done s = send-log to _ s
  reply-log to reset (some idx) done s = send-log to _ s

  -- The entries after the first are usual.
  abbrev TailUsual : List Entry → Type 0
  TailUsual [] = Unit
  TailUsual (e ∷ es) = Usual es

  Usual-TailUsual : (es : List Entry) → Usual es → TailUsual es
  Usual-TailUsual [] u = tt
  Usual-TailUsual (e ∷ es) u = u.1

  append_at-log :
      (clock : Clock) (from : Addr) (commit prev t : ℕ) (found entries : List Entry) (s : Peer)
      → IsLog s.raft_log
      → TailUsual found
      → Usual entries
      → get_entries (some prev) s.raft_log ≡ found
      → (append_at clock from commit prev t found entries s).1.raft_log
        ≡ (if starts t found then keep_to prev s.raft_log ++ entries else s.raft_log)
  unfolding append_at set_commit accepted
  append_at-log clock from commit prev t [] entries s h u v e = reply-log from true none false s
  append_at-log clock from commit prev t (x ∷ later) entries s h u v e =
      elim (Bool-cases (x.term == t)) [
        | inr other ↦ rw other (reply-log from true (some prev) false s)
        | inl same ↦
            let f = get_entries-IsFound prev s.raft_log x later h e in
            rw same (
              ap (λ r. (after r (λ _. modify (set_commit commit))).1.raft_log)
                (accept_lem clock from prev x later entries s e f u v)
              ∙ (reply-log from false (some (next_node prev entries)) true
                    (record s { raft_log = up_to prev s.raft_log ++ entries })
                  ∙ ap (λ l. l ++ entries) (sym (keep-up_to prev s.raft_log h f.after_first))))
      ]

  -- The log of a node that is given entries by a leader of a term that is not past: if it has the
  -- entry that the message names, by place and term, it is cut after that place and the entries are
  -- added, also where it had the same ones; otherwise it stays as it is. The log stands at consecutive
  -- places, and no command in it or in the message changes the cluster.
  pub on_append_entries-log :
      (clock : Clock) (from : Addr) (term commit prev t : ℕ) (entries : List Entry) (s : Peer)
      → s.raft_current_term ≤ term
      → IsLog s.raft_log
      → Run (prev + 1) entries
      → (on_append_entries clock from term commit (some (prev, t)) entries s).1.raft_log
        ≡ (if holds prev t s.raft_log then keep_to prev s.raft_log ++ entries else s.raft_log)
  unfolding on_append_entries append_after
  on_append_entries-log clock from term commit prev t entries s now h r =
      let s' = follow clock from term commit s in
      let same = follow-log clock from term commit s in
      let h' = subst IsLog (sym same) h in
      let current : leb s.raft_current_term term ≡ true = ground arith in
      rw current (
        append_at-log clock from commit prev t (get_entries (some prev) s'.raft_log) entries s' h'
          (Usual-TailUsual _ (Run-Usual prev _ (get_entries-Run prev s'.raft_log h')))
          (Run-Usual (prev + 1) entries r) refl
        ∙ (ap (λ b. if b then keep_to prev s'.raft_log ++ entries else s'.raft_log)
              (sym (holds-get prev t s'.raft_log h'))
            ∙ ap (λ l. if holds prev t l then keep_to prev l ++ entries else l) same))
