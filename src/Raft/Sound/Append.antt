-- ===== src/Raft/Sound/Append.antt =====
-- What a leader sends fits.
use belcoin.Prelude.{
  ℕ, zero, suc, ◌+◌, ◌<◌, ◌≤◌, refl, Bool, true, false, ◌||◌, Option, none, some, List, [], ◌∷◌,
  ◌++◌, arith, ltb, leb, elem, Bool-cases, inl, inr,
}
use mathlib.Core.Path.{subst}
use belcoin.Exec.{pure, modify, ◌>>=◌, ◌>>◌, index_error}
use belcoin.Exec.Keeps.{
  Keeps-for_each, Keeps-gets, Keeps, Keeps-raise, Keeps-modify, Keeps-bind, Keeps-pure, bind-at,
  keeps_rules,
}
use belcoin.Raft.{Addr, Entry, Setup, Peer, Clock, Part, append_dump, node_send}
use belcoin.Raft.Log.{current_log_index, first_idx, get_entries_sized, get_prev_log_index_term}
use belcoin.Raft.Log.Laws.{Run, IsLog, get_entries_sized-Run, prev_found}
use belcoin.Raft.Log.Chain.{Fact, Chain, LinkedTo, sent-LinkedTo}
use belcoin.Raft.Append.{
  send_entries, move_next_index, append_from, skip_dump, after_part, append_part, append_round,
  next_index_of, append_loop, append_to, send_append_entries,
}
use belcoin.Raft.Sound.{
  Heard, IsSound, IsSound-same, Follows, node_send-IsSound, send_entries-IsSound,
  set_next_index-IsSound,
}

module _ ⦃C : Setup⦄ (me n : ℕ) (heard : Heard) where
  move_next_index-IsSound :
      (to : Addr) (es : List Entry) → Keeps (IsSound me n heard) (move_next_index to es)
  unfolding move_next_index
  move_next_index-IsSound to [] = Keeps-raise index_error
  move_next_index-IsSound to (e ∷ es) = Keeps-modify _ (set_next_index-IsSound me n heard to _)

  -- Nothing follows whatever it is that goes before.
  nothing-Follows : (prev : Option (ℕ × ℕ)) → Follows prev []
  nothing-Follows none = refl
  nothing-Follows (some (p, t)) = tt

  nothing-LinkedTo : (book : List Fact) (prev : Option (ℕ × ℕ)) → LinkedTo book prev []
  nothing-LinkedTo book none = tt
  nothing-LinkedTo book (some (p, t)) = tt

  entries-Follows :
      (next : ℕ) (log : List Entry)
      → IsLog log
      → first_idx log < next
      → next ≤ current_log_index log
      → Follows (get_prev_log_index_term next log) (get_entries_sized next C.batch_bytes log)
  entries-Follows next log h after last =
      let (t, e) = prev_found next log h after last in
      rw e (
        subst (λ k. Run k (get_entries_sized next C.batch_bytes log)) (omega arith)
          (get_entries_sized-Run next C.batch_bytes log h))

  move_and_send-IsSound :
      (to : Addr) (prev : Option (ℕ × ℕ)) (es : List Entry) (s : Peer)
      → Follows prev es
      → ((book : List Fact) → Chain book s.raft_log → LinkedTo book prev es)
      → IsSound me n heard s
      → IsSound me n heard ((move_next_index to es >> modify (send_entries to prev es)) s).1
  unfolding move_next_index
  move_and_send-IsSound to prev [] s f l h = h
  move_and_send-IsSound to prev (e ∷ es) s f l h =
      send_entries-IsSound me n heard to prev (e ∷ es) _ f l
        (set_next_index-IsSound me n heard to _ s h)

  append_from-IsSound :
      (to : Addr) (next : ℕ) (s : Peer)
      → first_idx s.raft_log < next
      → IsSound me n heard s
      → IsSound me n heard (append_from to next s).1
  unfolding append_from
  append_from-IsSound to next s after h =
      elim (Bool-cases (leb next (current_log_index s.raft_log))) [
        | inl more ↦ rw more (
            move_and_send-IsSound to _ (get_entries_sized next C.batch_bytes s.raft_log) s
              (entries-Follows next s.raft_log h.log after (ground arith))
              (λ book c.
                sent-LinkedTo book next C.batch_bytes s.raft_log h.log after (ground arith) c)
              h)
        | inr none_left ↦ rw none_left (
            send_entries-IsSound me n heard to _ [] s (nothing-Follows _)
              (λ book c. nothing-LinkedTo book _) h)
      ]

  skip_dump-IsSound : (to : Addr) (log : List Entry) → Keeps (IsSound me n heard) (skip_dump to log)
  unfolding skip_dump
  skip_dump-IsSound to [] = Keeps-raise index_error
  skip_dump-IsSound to (e ∷ []) = Keeps-raise index_error
  skip_dump-IsSound to (e ∷ e' ∷ es) = Keeps-modify _ (set_next_index-IsSound me n heard to _)

  after_part-IsSound :
      (to : Addr) (part : Option Part) → Keeps (IsSound me n heard) (after_part to part)
  unfolding after_part
  after_part-IsSound to none = Keeps-pure false
  after_part-IsSound to (some part) = search (keeps_rules, skip_dump-IsSound)

  append_part-IsSound : (to : Addr) → Keeps (IsSound me n heard) (append_part to)
  unfolding append_part
  append_part-IsSound to = record {
    at = λ s h.
        let ser = C.get_transmission_data s.serializer to in
        let s' = record s { serializer = ser.1 } in
        (after_part-IsSound to ser.0).at
          (node_send to (append_dump s.raft_current_term s.raft_commit_index ser.0) s')
          (node_send-IsSound me n heard to _ s' tt refl (λ book c. tt)
            (IsSound-same me n heard s s' h refl refl refl refl refl));
  }

  append_round-IsSound :
      (to : Addr) (next : ℕ) (sending : Bool)
      → Keeps (IsSound me n heard) (append_round to next sending)
  unfolding append_round
  append_round-IsSound to next sending = record {
    at = λ s h. elim (Bool-cases (ltb (first_idx s.raft_log) next)) [
      | inl after ↦ rw after (
          bind-at {P = IsSound me n heard} (append_from to next) (λ _. pure sending) s
            (append_from-IsSound to next s (ground arith) h) (λ _. Keeps-pure sending))
      | inr dump ↦ rw dump ((append_part-IsSound to).at s h)
    ];
  }

  next_index_of-IsSound : (to : Addr) → Keeps (IsSound me n heard) (next_index_of to)
  unfolding next_index_of
  next_index_of-IsSound to = search keeps_rules

  append_loop-IsSound :
      (rounds : ℕ) (to : Addr) (single sending : Bool)
      → Keeps (IsSound me n heard) (append_loop rounds to single sending)
  unfolding append_loop
  append_loop-IsSound zero to single sending = Keeps-pure tt
  append_loop-IsSound (suc rounds) to single sending =
      Keeps-bind _ _ (next_index_of-IsSound to) (λ next.
        Keeps-bind _ _ (Keeps-gets (λ s. s.raft_log)) (λ log.
          case (append_loop-IsSound rounds to false)
            (leb next (current_log_index log) || (single || sending)) next))
    where
      case :
          ((again : Bool) → Keeps (IsSound me n heard) (append_loop rounds to false again))
          → (b : Bool) (next : ℕ)
          → Keeps (IsSound me n heard) (elim b [
            | true ↦ (append_round to next sending >>= λ again. append_loop rounds to false again)
            | false ↦ pure tt
          ])
      case ih true next = Keeps-bind _ _ (append_round-IsSound to next sending) ih
      case ih false next = Keeps-pure tt

  append_to-IsSound : (clock : Clock) (to : Addr) → Keeps (IsSound me n heard) (append_to clock to)
  unfolding append_to
  append_to-IsSound clock to = record {
    at = λ s h. elim (Bool-cases (elem to s.connected)) [
      | inl up ↦ rw up ((append_loop-IsSound (suc (clock.append_rounds to)) to true false).at s h)
      | inr down ↦ rw down (IsSound-same me n heard s _ h refl refl refl refl refl)
    ];
  }

  pub send_append_entries-IsSound :
      (clock : Clock) → Keeps (IsSound me n heard) (send_append_entries clock)
  unfolding send_append_entries
  send_append_entries-IsSound clock = record {
    at = λ s h.
        (Keeps-for_each (s.nodes ++ s.readonly_nodes) (append_to clock)
            (append_to-IsSound clock)).at
          (record s { new_append_entries_time = clock.now + C.append_entries_period })
          (IsSound-same me n heard s _ h refl refl refl refl refl);
  }
