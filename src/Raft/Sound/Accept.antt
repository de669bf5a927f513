-- ===== src/Raft/Sound/Accept.antt =====
-- What accepting entries does where no command changes the cluster.
use belcoin.Prelude.{
  ℕ, suc, ◌+◌, ◌≡◌, refl, sym, ap, ◌∙◌, Bool, true, false, none, some, List, [], ◌∷◌, ◌++◌, All,
  Bool-cases, inl, inr,
}
use belcoin.Exec.{Exec, Result, ok, err, modify, for_each, ◌>>◌}
use belcoin.Raft.{Addr, Entry, Setup, Peer, Clock}
use belcoin.Codec.{Octets}
use belcoin.Raft.Log.{get_entries, delete_entries_from}
use belcoin.Raft.Log.Laws.{is_change, Run, IsFound, up_to, up_to-last, delete-up_to}
use belcoin.Raft.Send.{send_next_node_idx}
use belcoin.Raft.Cluster.{parse_change_cluster_request}
use belcoin.Raft.Follow.{reversed, next_node, change_if, change_by, change_all, roll_back, accept}

-- What comes after an action that returns
abbrev pub after : {S A B : Type 0} → Result A × S → (A → Exec S B) → Result B × S
after r f = elim r.0 [ ok a ↦ f a r.1 | err e ↦ (err e, r.1) ]

-- Entries that do not change the cluster
abbrev pub Usual : List Entry → Type 0
Usual es = All (λ (e : Entry). is_change e.command ≡ false) es

pub Run-Usual : (i : ℕ) (es : List Entry) → Run i es → Usual es
Run-Usual i [] h = tt
Run-Usual i (e ∷ es) (p, q, h) = (q, Run-Usual (suc i) es h)

reversed-Usual : (es acc : List Entry) → Usual es → Usual acc → Usual (reversed es acc)
unfolding reversed
reversed-Usual [] acc h k = k
reversed-Usual (e ∷ es) acc (q, h) k = reversed-Usual es (e ∷ acc) h (q, k)

module _ ⦃C : Setup⦄ where
  pub parse_usual :
      (command : Octets) (s : Peer)
      → is_change command ≡ false
      → parse_change_cluster_request command s ≡ (ok none, s)
  unfolding parse_change_cluster_request
  parse_usual [] s q = cc
  parse_usual (kind ∷ payload) s q = rw q refl

  change_by-usual :
      (clock : Clock) (reverse : Bool) (e : Entry) (s : Peer)
      → is_change e.command ≡ false
      → change_by clock reverse e s ≡ (ok tt, s)
  unfolding change_by change_if
  change_by-usual clock reverse e s q =
      ap (λ r. after r (change_if clock reverse)) (parse_usual e.command s q)

  for_each-Usual :
      (clock : Clock) (reverse : Bool) (es : List Entry) (s : Peer)
      → Usual es
      → for_each es (change_by clock reverse) s ≡ (ok tt, s)
  unfolding for_each
  for_each-Usual clock reverse [] s h = refl
  for_each-Usual clock reverse (e ∷ es) s (q, h) =
      ap (λ r. after r (λ _. for_each es (change_by clock reverse)))
        (change_by-usual clock reverse e s q)
      ∙ for_each-Usual clock reverse es s h

  change_all-Usual :
      (clock : Clock) (reverse : Bool) (es : List Entry) (s : Peer)
      → Usual es
      → change_all clock reverse es s ≡ (ok tt, s)
  unfolding change_all
  change_all-Usual clock reverse es s h = elim (Bool-cases C.dynamic_membership) [
    | inl dynamic ↦ rw dynamic (for_each-Usual clock reverse es s h)
    | inr static ↦ rw static refl
  ]

  -- The log is cut after the entry at `prev`.
  cut : ℕ → Peer → Peer
  cut prev s = record s { raft_log = up_to prev s.raft_log }

  roll_back_lem :
      (clock : Clock) (prev : ℕ) (x : Entry) (later : List Entry) (s : Peer)
      → get_entries (some prev) s.raft_log ≡ x ∷ later
      → IsFound prev s.raft_log
      → Usual later
      → roll_back clock prev later s ≡ (ok tt, cut prev s)
  unfolding roll_back cut
  roll_back_lem clock prev x [] s e f u =
      ap (λ (l : List Entry). (ok tt, record s { raft_log = l }))
        (sym (up_to-last prev s.raft_log x e f))
  roll_back_lem clock prev x (y ∷ later) s e f u =
      ap
        (λ r.
          after r
            (λ _. modify (λ s. record s { raft_log = delete_entries_from (prev + 1) s.raft_log })))
        (change_all-Usual clock true (reversed (y ∷ later) []) s
          (reversed-Usual (y ∷ later) [] u tt))
      ∙ ap (λ (l : List Entry). (ok tt, record s { raft_log = l })) (delete-up_to prev s.raft_log f)

  -- What follows an accepted message: the log up to the named entry, and the new entries.
  unfoldable pub accepted : Addr → ℕ → List Entry → Peer → Peer
  accepted from prev entries s =
      send_next_node_idx from false (some (next_node prev entries)) true
        (record s { raft_log = up_to prev s.raft_log ++ entries })

  pub accept_lem :
      (clock : Clock) (from : Addr) (prev : ℕ) (x : Entry) (later entries : List Entry) (s : Peer)
      → get_entries (some prev) s.raft_log ≡ x ∷ later
      → IsFound prev s.raft_log
      → Usual later
      → Usual entries
      → accept clock from prev later entries s ≡ (ok tt, accepted from prev entries s)
  unfolding accept accepted cut
  accept_lem clock from prev x later entries s e f u v =
      ap (λ r. after r (λ _. add >> (change_all clock false entries >> reply)))
        (roll_back_lem clock prev x later s e f u)
      ∙ ap (λ r. after r (λ _. reply)) (change_all-Usual clock false entries _ v)
    where
      add : Exec Peer (Unit {0})
      add = modify (λ s. record s { raft_log = s.raft_log ++ entries })

      reply : Exec Peer (Unit {0})
      reply = modify (send_next_node_idx from false (some (next_node prev entries)) true)
