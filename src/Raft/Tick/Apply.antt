-- ===== src/Raft/Tick/Apply.antt =====
-- The committed entries are applied, each once and in their order.
use belcoin.Prelude.{
  ℕ, ◌+◌, ◌-◌, ◌≤◌, ◌<◌, ◌≡◌, refl, sym, ap, ◌∙◌, Bool, true, false, not, Option, some, List, [],
  ◌∷◌, ltb, ◌==◌, if◌then◌else◌, arith, length, All, Bool-cases, inl, inr,
}
use mathlib.Core.Path.{subst}
use belcoin.Exec.{raise, Result, ok, pure, modify, for_each, or_raise, ◌>>◌, decode_error}
use belcoin.Dict.{without}
use belcoin.Codec.{Octets}
use belcoin.Raft.{discarded, success, Entry, Setup, Peer, regular, version, call}
use belcoin.Raft.Log.{drop, first_idx, current_log_index, get_entries, get_entries_count}
use belcoin.Raft.Log.Laws.{
  IsLog, Run, current-index, length-take, length-drop, Run-take, get_entries-Run,
}
use belcoin.Raft.Commands.{waiting_at}
use belcoin.Raft.Tick.{
  set_version, switch_version, call_method, do_apply_command, tell_all, finish_entry, apply_entry,
  apply_tick,
}
use belcoin.Raft.Sound.Accept.{after}

-- The calls among the commands, the last one first, before `done`
abbrev pub call_of : Octets → List Octets → List Octets
call_of [] done = done
call_of (kind ∷ payload) done = if kind == regular then payload ∷ done else done

pub calls : List Entry → List Octets → List Octets
calls [] done = done
calls (e ∷ es) done = calls es (call_of e.command done)

module _ ⦃C : Setup⦄ where
  -- A command that a node of a code version can apply: it is not empty, a call of a replicated method
  -- can be loaded, and so can a version, which is not above the node's.
  abbrev pub CanApply : ℕ → Octets → Type 0
  CanApply own [] = ⊥
  CanApply own (kind ∷ payload) =
      (kind ≡ version → (v : ℕ) × (C.loads_version payload ≡ some v) × (v ≤ own))
      × (kind ≡ regular → C.is_call payload ≡ true)

  -- From `s` to `s'` some more entries, with their calls, were applied.
  record Goes (more : ℕ) (done : List Octets) (s s' : Peer) : Type 0 where
    last : s'.raft_last_applied ≡ s.raft_last_applied + more
    made : s'.applied ≡ done
    same : s'.self_code_version ≡ s.self_code_version

  tell_all-Goes :
      (term : ℕ) (fs : List (ℕ × ℕ)) (s : Peer) → Goes 0 s.applied s (tell_all term fs s)
  unfolding tell_all call
  tell_all-Goes term [] s = record { last = omega arith; made = refl; same = refl }
  tell_all-Goes term ((t, f) ∷ more) s =
      let ih = tell_all-Goes term more (call f (if t == term then success else discarded) s) in
      record { last = ih.last; made = ih.made; same = ih.same }

  finish-Goes :
      (term : ℕ) (fs : List (ℕ × ℕ)) (s : Peer) → Goes 1 s.applied s (finish_entry term fs s)
  unfolding finish_entry
  finish-Goes term fs s =
      let g = tell_all-Goes term fs s in
      record { last = omega (arith, g.last); made = g.made; same = g.same }

  -- A command that can be applied is applied.
  abbrev Done : (Result Bool × Peer) → List Octets → Peer → Type 0
  Done r done s = (s' : Peer) × (r ≡ (ok true, s')) × Goes 0 done s s'

  switched :
      (payload : Octets) (ver : ℕ) (s : Peer)
      → C.loads_version payload ≡ some ver
      → ver ≤ s.self_code_version
      → switch_version payload s ≡ (ok true, record s { enabled_code_version = ver })
  unfolding switch_version set_version
  switched payload ver s e le =
      let old : ltb s.self_code_version ver ≡ false = ground arith in
      ap (λ (o : Option ℕ). after (or_raise {S = Peer} o decode_error s) set_version) e
      ∙ ap
          (λ (b : Bool).
            (if b
                then pure false
                else (modify (λ s. record s { enabled_code_version = ver }) >> pure true))
              s)
          old

  called :
      (payload : Octets) (s : Peer)
      → C.is_call payload ≡ true
      → call_method payload s ≡ (ok true, record s { applied = payload ∷ s.applied })
  unfolding call_method
  called payload s e =
      ap
        (λ (b : Bool).
          (if b
              then (modify (λ s. record s { applied = payload ∷ s.applied }) >> pure true)
              else raise decode_error)
            s)
        e

  do_apply-Done :
      (command : Octets) (s : Peer)
      → CanApply s.self_code_version command
      → Done (do_apply_command command s) (call_of command s.applied) s
  unfolding do_apply_command
  do_apply-Done [] s c = elim c [ ]
  do_apply-Done (kind ∷ payload) s (v, r) = elim (Bool-cases (kind == version)) [
    | inl upgrade ↦
        let (ver, e, le) = v (ground arith) in
        (
          record s { enabled_code_version = ver },
          rw upgrade (switched payload ver s e le),
          record { last = omega arith; made = ground arith; same = refl },
        )
    | inr other ↦ elim (Bool-cases (kind == regular)) [
      | inl method ↦ (
        record s { applied = payload ∷ s.applied },
        rw other (rw method (called payload s (r (ground arith)))),
        record { last = omega arith; made = rw method refl; same = refl },
      )
      | inr silent ↦ (
        s,
        rw other (rw silent refl),
        record { last = omega arith; made = rw silent refl; same = refl },
      )
    ]
  ]

  -- The state in which the command of an entry is applied
  unwaited : Entry → Peer → Peer
  unwaited e s = record s { commands_waiting_commit = without e.idx s.commands_waiting_commit }

  abbrev Finished : (Result (Unit {0}) × Peer) → ℕ → List Octets → Peer → Type 0
  Finished r more done s = (s' : Peer) × (r ≡ (ok tt, s')) × Goes more done s s'

  apply_entry-Finished :
      (e : Entry) (s : Peer)
      → CanApply s.self_code_version e.command
      → Finished (apply_entry e s) 1 (call_of e.command s.applied) s
  unfolding apply_entry unwaited
  apply_entry-Finished e s c =
      let (s', q, g) = do_apply-Done e.command (unwaited e s) c in
      let fs = waiting_at e.idx s.commands_waiting_commit in
      let f = finish-Goes e.term fs s' in
      (
        finish_entry e.term fs s',
        ap (λ r. after r (λ done. if done then modify (finish_entry e.term fs) else pure tt)) q,
        record {
          last = omega (arith, f.last, g.last);
          made = f.made ∙ g.made;
          same = f.same ∙ g.same;
        },
      )

  for_each-Finished :
      (es : List Entry) (s : Peer)
      → All (λ (e : Entry). CanApply s.self_code_version e.command) es
      → Finished (for_each es apply_entry s) (length es) (calls es s.applied) s
  unfolding for_each calls
  for_each-Finished [] s h = (s, refl, record { last = omega arith; made = refl; same = refl })
  for_each-Finished (e ∷ es) s (c, h) =
      let (s1, q1, g1) = apply_entry-Finished e s c in
      let (s2, q2, g2) =
        for_each-Finished es s1
          (subst (λ own. All (λ (e : Entry). CanApply own e.command) es) (sym g1.same) h) in
      (
        s2,
        ap (λ r. after r (λ _. for_each es apply_entry)) q1 ∙ q2,
        record {
          last = omega (arith, g1.last, g2.last);
          made = g2.made ∙ ap (calls es) g1.made;
          same = g2.same ∙ g1.same;
        },
      )

  -- The entries that are committed and not applied
  abbrev pub waiting : Peer → List Entry
  waiting s =
      get_entries_count (s.raft_last_applied + 1) (s.raft_commit_index - s.raft_last_applied)
        s.raft_log

  waiting-length :
      (from count : ℕ) (log : List Entry)
      → IsLog log
      → first_idx log ≤ from
      → from + count ≤ current_log_index log + 1
      → length (get_entries_count from count log) ≡ count
  unfolding get_entries_count get_entries
  waiting-length from count log h le within =
      let there : ltb from (first_idx log) ≡ false = ground arith in
      rw there (
        length-take count (drop (from - first_idx log) log)
          (omega (arith, current-index log h, length-drop (from - first_idx log) log)))

  waiting-Run : (s : Peer) → IsLog s.raft_log → Run (s.raft_last_applied + 1) (waiting s)
  unfolding get_entries_count
  waiting-Run s h =
      Run-take (s.raft_commit_index - s.raft_last_applied) (s.raft_last_applied + 1) _
        (get_entries-Run (s.raft_last_applied + 1) s.raft_log h)

  -- A tick of a node with committed entries that are not applied: if the log stands at consecutive
  -- places, has the first of them and reaches to the commit index, and each of their commands can be
  -- applied, then nothing is raised, the last applied index becomes the commit index, and the calls
  -- that are made are those of the entries at the places after the last applied one up to the commit
  -- index, in their order.
  pub apply_tick-applies :
      (s : Peer)
      → IsLog s.raft_log
      → first_idx s.raft_log ≤ s.raft_last_applied + 1
      → s.raft_last_applied < s.raft_commit_index
      → s.raft_commit_index ≤ current_log_index s.raft_log
      → All (λ (e : Entry). CanApply s.self_code_version e.command) (waiting s)
      → (s' : Peer) × (apply_tick s ≡ (ok (not C.use_batch), s'))
        × (s'.raft_last_applied ≡ s.raft_commit_index)
        × (s'.applied ≡ calls (waiting s) s.applied)
        × Run (s.raft_last_applied + 1) (waiting s)
        × (length (waiting s) ≡ s.raft_commit_index - s.raft_last_applied)
  unfolding apply_tick
  apply_tick-applies s h first lt within c =
      let (s', q, g) = for_each-Finished (waiting s) s c in
      let n =
        waiting-length (s.raft_last_applied + 1) (s.raft_commit_index - s.raft_last_applied)
          s.raft_log h first (omega arith) in
      let due : ltb s.raft_last_applied s.raft_commit_index ≡ true = ground arith in
      (
        s',
        ap
              (λ (b : Bool).
                (if b
                    then (for_each (waiting s) apply_entry >> pure (not C.use_batch))
                    else pure false)
                  s)
              due
            ∙ ap (λ r. after r (λ _. pure (not C.use_batch))) q,
        omega (arith, g.last, n),
        g.made,
        waiting-Run s h,
        n,
      )
