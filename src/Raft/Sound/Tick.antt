-- ===== src/Raft/Sound/Tick.antt =====
-- A tick keeps what holds of every node.
use belcoin.Prelude.{
  ℕ, zero, suc, ◌+◌, ◌-◌, ◌≤◌, ◌≡◌, refl, Bool, not, ◌&&◌, Option, none, some, List, [], ◌∷◌, arith,
  ltb, Bool-cases, inl, inr,
}
use belcoin.Exec.{type_error, modify, or_raise, ◌>>=◌, key_error}
use belcoin.Exec.Keeps.{Keeps, Keeps-raise, keeps_rules}
use belcoin.Dict.{Dict, without}
use belcoin.Codec.{Octets}
use belcoin.Raft.{follower, Addr, Entry, Setup, Peer, Clock}
use belcoin.Raft.Log.{current_log_index}
use belcoin.Raft.Tick.{
  commit_loop, advance_commit, fall_back, lead_tick, set_version, switch_version, call_method,
  do_apply_command, tell_all, finish_entry, apply_entry, apply_tick, append_tick, check_ready,
  check_readonly, on_tick, opt_eq,
}
use belcoin.Raft.Sound.{Heard, IsSound, IsSound-same, ballot, call-IsSound}
use belcoin.Raft.Sound.Append.{send_append_entries-IsSound}
use belcoin.Raft.Sound.Authors.{down-IsAuthor}
use belcoin.Raft.Sound.Votes.{step_down}
use belcoin.Raft.Sound.Lead.{IsSound-ballot, election_tick-IsSound}
use belcoin.Raft.Sound.Command.{check_commands_to_apply-IsSound}

commit_loop-le :
    (fuel last commit c : ℕ) (nodes : List Addr) (match : Dict ℕ)
    → commit_loop fuel last commit nodes match ≡ some c
    → commit ≤ last
    → c ≤ last
unfolding commit_loop
commit_loop-le zero last commit c nodes match e h = ground arith
commit_loop-le (suc fuel) last commit c nodes match e h =
    ground (arith, commit_loop-le fuel last (commit + 1) c nodes match)

commit_loop-ge :
    (fuel last commit c : ℕ) (nodes : List Addr) (match : Dict ℕ)
    → commit_loop fuel last commit nodes match ≡ some c
    → commit ≤ c
unfolding commit_loop
commit_loop-ge zero last commit c nodes match e = ground arith
commit_loop-ge (suc fuel) last commit c nodes match e =
    ground (arith, commit_loop-ge fuel last (commit + 1) c nodes match)

module _ ⦃C : Setup⦄ (me n : ℕ) (heard : Heard) where
  committed-IsSound :
      (s : Peer) (o : Option ℕ)
      → ((c : ℕ) → o ≡ some c → c ≤ current_log_index s.raft_log)
      → ((c : ℕ) → o ≡ some c → s.raft_commit_index ≤ c)
      → IsSound me n heard s
      → IsSound me n heard
          (◌>>=◌ {S = Peer}
            (or_raise o key_error)
            (λ commit.
              modify
                λ s. record s { raft_commit_index = commit; leader_commit_index = some commit })
            s).1
  committed-IsSound s none le ge h = h
  committed-IsSound s (some c) le ge h = record {
    log = h.log;
    committed = le c refl;
    begun = omega (arith, h.begun, ge c refl);
    posted = h.posted;
    queued = h.queued;
    fair = h.fair;
    book = h.book;
    facts = h.facts;
    author = h.author;
    chained = h.chained;
    linked = h.linked;
  }

  advance_commit-IsSound : Keeps (IsSound me n heard) advance_commit
  unfolding advance_commit
  advance_commit-IsSound = record {
    at = λ s h.
        let last = current_log_index s.raft_log in
        committed-IsSound s
          (commit_loop (last - s.raft_commit_index) last s.raft_commit_index s.nodes
            s.raft_match_index)
          (λ c e.
            commit_loop-le (last - s.raft_commit_index) last s.raft_commit_index c s.nodes
              s.raft_match_index e h.committed)
          (λ c e.
            commit_loop-ge (last - s.raft_commit_index) last s.raft_commit_index c s.nodes
              s.raft_match_index e)
          h;
  }

  step_down-IsSound :
      (s : Peer)
      → IsSound me n heard s
      → IsSound me n heard (record s { raft_state = follower; raft_leader = none })
  step_down-IsSound s h =
      IsSound-ballot me n heard s _ h refl refl refl refl (step_down me n heard (ballot s) h.fair)
        (λ book facts a. down-IsAuthor me book (ballot s) _ a)

  fall_back-IsSound : (clock : Clock) → Keeps (IsSound me n heard) (fall_back clock)
  unfolding fall_back
  fall_back-IsSound clock = search (keeps_rules, step_down-IsSound)

  lead_tick-IsSound : (clock : Clock) → Keeps (IsSound me n heard) (lead_tick clock)
  unfolding lead_tick
  lead_tick-IsSound clock = search (keeps_rules, advance_commit-IsSound, fall_back-IsSound)

  versioned-IsSound :
      (ver : ℕ) (s : Peer)
      → IsSound me n heard s
      → IsSound me n heard (record s { enabled_code_version = ver })
  versioned-IsSound ver s h = IsSound-same me n heard s _ h refl refl refl refl refl

  set_version-IsSound : (ver : ℕ) → Keeps (IsSound me n heard) (set_version ver)
  unfolding set_version
  set_version-IsSound ver = search (keeps_rules, versioned-IsSound)

  called-IsSound :
      (payload : Octets) (s : Peer)
      → IsSound me n heard s
      → IsSound me n heard (record s { applied = payload ∷ s.applied })
  called-IsSound payload s h = IsSound-same me n heard s _ h refl refl refl refl refl

  switch_version-IsSound : (payload : Octets) → Keeps (IsSound me n heard) (switch_version payload)
  unfolding switch_version
  switch_version-IsSound payload = search (keeps_rules, set_version-IsSound)

  call_method-IsSound : (payload : Octets) → Keeps (IsSound me n heard) (call_method payload)
  unfolding call_method
  call_method-IsSound payload = search (keeps_rules, Keeps-raise, called-IsSound)

  do_apply_command-IsSound :
      (command : Octets) → Keeps (IsSound me n heard) (do_apply_command command)
  unfolding do_apply_command
  do_apply_command-IsSound [] = Keeps-raise type_error
  do_apply_command-IsSound (kind ∷ payload) =
      search (keeps_rules, switch_version-IsSound, call_method-IsSound)

  tell_all-IsSound :
      (term : ℕ) (fs : List (ℕ × ℕ)) (s : Peer)
      → IsSound me n heard s
      → IsSound me n heard (tell_all term fs s)
  unfolding tell_all
  tell_all-IsSound term [] s h = h
  tell_all-IsSound term ((t, f) ∷ more) s h =
      tell_all-IsSound term more _ (call-IsSound me n heard f _ s h)

  finish_entry-IsSound :
      (term : ℕ) (fs : List (ℕ × ℕ)) (s : Peer)
      → IsSound me n heard s
      → IsSound me n heard (finish_entry term fs s)
  unfolding finish_entry
  finish_entry-IsSound term fs s h =
      IsSound-same me n heard (tell_all term fs s) _ (tell_all-IsSound term fs s h) refl refl refl
        refl refl

  unwaited-IsSound :
      (idx : ℕ) (s : Peer)
      → IsSound me n heard s
      → IsSound me n heard
          (record s { commands_waiting_commit = without idx s.commands_waiting_commit })
  unwaited-IsSound idx s h = IsSound-same me n heard s _ h refl refl refl refl refl

  apply_entry-IsSound : (e : Entry) → Keeps (IsSound me n heard) (apply_entry e)
  unfolding apply_entry
  apply_entry-IsSound e =
      search (keeps_rules, unwaited-IsSound, do_apply_command-IsSound, finish_entry-IsSound) depth
        12

  apply_tick-IsSound : Keeps (IsSound me n heard) apply_tick
  unfolding apply_tick
  apply_tick-IsSound = search (keeps_rules, apply_entry-IsSound)

  append_tick-IsSound :
      (clock : Clock) (need : Bool) → Keeps (IsSound me n heard) (append_tick clock need)
  unfolding append_tick
  append_tick-IsSound clock need = search (keeps_rules, send_append_entries-IsSound)

  check_ready-IsSound : (s : Peer) → IsSound me n heard s → IsSound me n heard (check_ready s)
  unfolding check_ready
  check_ready-IsSound s h =
      elim (Bool-cases
        (not s.on_ready_called && opt_eq s.raft_last_applied s.leader_commit_index)) [
          | inl ready ↦ rw ready (IsSound-same me n heard s _ h refl refl refl refl refl)
          | inr other ↦ rw other h
        ]

  check_readonly-IsSound :
      (clock : Clock) (s : Peer)
      → IsSound me n heard s
      → IsSound me n heard (check_readonly clock s)
  unfolding check_readonly
  check_readonly-IsSound clock s h =
      elim (Bool-cases (ltb (s.last_readonly_check + 1000) clock.now)) [
        | inl due ↦ rw due (IsSound-same me n heard s _ h refl refl refl refl refl)
        | inr early ↦ rw early h
      ]

  pub on_tick-IsSound : (clock : Clock) → Keeps (IsSound me n heard) (on_tick clock)
  unfolding on_tick
  on_tick-IsSound clock =
      search
        (
          keeps_rules, election_tick-IsSound, lead_tick-IsSound, apply_tick-IsSound,
          append_tick-IsSound, check_ready-IsSound, check_commands_to_apply-IsSound,
          check_readonly-IsSound,
        )
        depth 20
