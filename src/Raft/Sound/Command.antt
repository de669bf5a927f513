-- ===== src/Raft/Sound/Command.antt =====
-- Commands on their way keep what holds of every node.
use belcoin.Prelude.{
  ℕ, zero, suc, ◌≡◌, refl, sym, ap, Bool, true, false, not, ◌&&◌, Option, none, some, List, [], ◌∷◌,
  ◌++◌, ltb, if◌then◌else◌, length, All, Bool-cases, inl, inr, is_some,
}
use mathlib.Core.Path.{subst}
use belcoin.Exec.{Exec, Result, ok, pure, raise, modify, ◌>>=◌, assertion_error}
use belcoin.Exec.Keeps.{bind-at, Keeps, Keeps-pure, Keeps-if}
use belcoin.Codec.{Octets}
use belcoin.Raft.{
  Addr, Setup, Peer, Clock, Callback, function, request, FailReason, queue_full, missing_leader,
  is_leader, call,
}
use belcoin.Raft.Cluster.{parse_change_cluster_request}
use belcoin.Raft.Log.Laws.{is_change}
use belcoin.Raft.Commands.{
  lead_if, admit_change, forward_or_fail, next_command, apply_command, wait_commit, tell_logged,
  log_command, admit, lead_command, forward_command, pass_command, check_commands_to_apply,
  on_command_request, take_reply, on_command_failed, on_command_logged,
}
use belcoin.Raft.Append.{send_append_entries}
use belcoin.Raft.Sound.{
  Heard, IsSound, IsSound-same, send-IsSound, call-IsSound, call_err_callback-IsSound,
}
use belcoin.Raft.Sound.Append.{send_append_entries-IsSound}
use belcoin.Raft.Sound.Lead.{grown-IsSound}
use belcoin.Raft.Sound.Accept.{after, parse_usual}

-- No command in the queue changes the cluster.
abbrev pub Quiet : List (Octets × Option Callback) → Type 0
Quiet queue = All (λ (m : Octets × Option Callback). is_change m.0 ≡ false) queue

Quiet-append :
    (command : Octets) (callback : Option Callback) (queue : List (Octets × Option Callback))
    → is_change command ≡ false
    → Quiet queue
    → Quiet (queue ++ ((command, callback) ∷ []))
Quiet-append command callback [] q h = (q, tt)
Quiet-append command callback (m ∷ queue) q (p, h) = (p, Quiet-append command callback queue q h)

either :
    {S A : Type 0} (b : Bool) (m k : Exec S A) (s : S) (r : Result A × S)
    → m s ≡ r
    → k s ≡ r
    → (if b then m else k) s ≡ r
either true m k s r p q = p
either false m k s r p q = q

module _ ⦃C : Setup⦄ where
  admit_usual :
      (clock : Clock) (command : Octets) (s : Peer)
      → is_change command ≡ false
      → admit clock command s ≡ (ok true, s)
  unfolding admit admit_change
  admit_usual clock command s q =
      either C.dynamic_membership (parse_change_cluster_request command >>= admit_change clock)
        (pure true) s (ok true, s)
        (ap (λ r. after r (admit_change clock)) (parse_usual command s q)) refl

module _ ⦃C : Setup⦄ (me n : ℕ) (heard : Heard) where
  queue-IsSound :
      (queue : List (Octets × Option Callback)) (s : Peer)
      → Quiet queue
      → IsSound me n heard s
      → IsSound me n heard (record s { commands_queue = queue })
  queue-IsSound queue s q h = record {
    log = h.log;
    committed = h.committed;
    begun = h.begun;
    posted = h.posted;
    queued = q;
    fair = h.fair;
    book = h.book;
    facts = h.facts;
    author = h.author;
    chained = h.chained;
    linked = h.linked;
  }

  pub apply_command-IsSound :
      (command : Octets) (callback : Option Callback) (s : Peer)
      → is_change command ≡ false
      → IsSound me n heard s
      → IsSound me n heard (apply_command command callback s)
  unfolding apply_command
  apply_command-IsSound command callback s q h =
      elim (Bool-cases (ltb C.commands_queue_size (length s.commands_queue))) [
        | inl full ↦ rw full (call_err_callback-IsSound me n heard queue_full callback s h)
        | inr room ↦ rw room (
            queue-IsSound (s.commands_queue ++ ((command, callback) ∷ [])) s
              (Quiet-append command callback s.commands_queue q h.queued) h)
      ]

  tell_logged-IsSound :
      (idx term : ℕ) (callback : Option Callback) (s : Peer)
      → IsSound me n heard s
      → IsSound me n heard (tell_logged idx term callback s)
  unfolding tell_logged wait_commit
  tell_logged-IsSound idx term none s h = h
  tell_logged-IsSound idx term (some (function f)) s h =
      IsSound-same me n heard s _ h refl refl refl refl refl
  tell_logged-IsSound idx term (some (request node id)) s h =
      send-IsSound me n heard node _ s tt refl (λ book c. tt) h

  log_command-IsSound :
      (command : Octets) (callback : Option Callback) (s : Peer)
      → is_change command ≡ false
      → is_leader s.raft_state ≡ true
      → IsSound me n heard s
      → IsSound me n heard (log_command command callback s)
  unfolding log_command
  log_command-IsSound command callback s q l h =
      tell_logged-IsSound _ _ callback _ (grown-IsSound me n heard s command q l h)

  lead_command-at :
      (clock : Clock) (command : Octets) (callback : Option Callback) (s : Peer)
      → is_change command ≡ false
      → is_leader s.raft_state ≡ true
      → IsSound me n heard s
      → IsSound me n heard (lead_command clock command callback s).1
  unfolding lead_command lead_if
  lead_command-at clock command callback s q l h =
      subst (λ r. IsSound me n heard (after r (lead_if clock command callback)).1)
        (sym (admit_usual clock command s q))
        ((Keeps-if C.use_batch (pure tt) (send_append_entries clock) (Keeps-pure tt)
            (send_append_entries-IsSound me n heard clock)).at
          (log_command command callback s) (log_command-IsSound command callback s q l h))

  forward_command-IsSound :
      (to : Addr) (command : Octets) (callback : Option Callback) (s : Peer)
      → is_change command ≡ false
      → IsSound me n heard s
      → IsSound me n heard (forward_command to command callback s)
  unfolding forward_command
  forward_command-IsSound to command none s q h =
      send-IsSound me n heard to _ s q refl (λ book c. tt) h
  forward_command-IsSound to command (some (function f)) s q h =
      send-IsSound me n heard to _ _ q refl (λ book c. tt)
        (IsSound-same me n heard s _ h refl refl refl refl refl)
  forward_command-IsSound to command (some (request node id)) s q h =
      send-IsSound me n heard node _ s tt refl (λ book c. tt) h

  forward_or_fail-IsSound :
      (to : Option Addr) (command : Octets) (callback : Option Callback) (s : Peer)
      → is_change command ≡ false
      → IsSound me n heard s
      → IsSound me n heard (forward_or_fail to command callback s)
  unfolding forward_or_fail
  forward_or_fail-IsSound none command callback s q h =
      call_err_callback-IsSound me n heard missing_leader callback s h
  forward_or_fail-IsSound (some to) command callback s q h =
      forward_command-IsSound to command callback s q h

  pass_command-at :
      (clock : Clock) (command : Octets) (callback : Option Callback) (s : Peer)
      → is_change command ≡ false
      → IsSound me n heard s
      → IsSound me n heard (pass_command clock command callback s).1
  unfolding pass_command
  pass_command-at clock command callback s q h = elim (Bool-cases (is_leader s.raft_state)) [
    | inl leading ↦ rw leading (lead_command-at clock command callback s q leading h)
    | inr other ↦ rw other (forward_or_fail-IsSound s.raft_leader command callback s q h)
  ]

  next_command-at :
      (clock : Clock) (rest : Exec Peer (Unit {0})) (queue : List (Octets × Option Callback))
      (s : Peer)
      → Keeps (IsSound me n heard) rest
      → Quiet queue
      → IsSound me n heard s
      → IsSound me n heard (next_command clock rest queue s).1
  unfolding next_command
  next_command-at clock rest [] s k q h = h
  next_command-at clock rest ((command, callback) ∷ queue) s k (p, q) h =
      bind-at (pass_command clock command callback) (λ _. rest)
        (record s { commands_queue = queue })
        (pass_command-at clock command callback (record s { commands_queue = queue }) p
          (queue-IsSound queue s q h))
        (λ _. k)

  pub check_commands_to_apply-IsSound :
      (clock : Clock) (rounds : ℕ)
      → Keeps (IsSound me n heard) (check_commands_to_apply clock rounds)
  unfolding check_commands_to_apply
  check_commands_to_apply-IsSound clock zero = Keeps-pure tt
  check_commands_to_apply-IsSound clock (suc rounds) = record {
    at = λ s h. elim (Bool-cases (not (is_some s.raft_leader) && C.commands_wait_leader)) [
      | inl wait ↦ rw wait h
      | inr go ↦ rw go (
          next_command-at clock (check_commands_to_apply clock rounds) s.commands_queue s
            (check_commands_to_apply-IsSound clock rounds) h.queued h)
    ];
  }

  pub on_command_request-IsSound :
      (from : Addr) (command : Octets) (id : Option ℕ) (s : Peer)
      → is_change command ≡ false
      → IsSound me n heard s
      → IsSound me n heard (on_command_request from command id s)
  unfolding on_command_request
  on_command_request-IsSound from command none s q h = apply_command-IsSound command none s q h
  on_command_request-IsSound from command (some id) s q h =
      apply_command-IsSound command (some (request from id)) s q h

  take_reply-IsSound :
      (id : ℕ) (s : Peer) → IsSound me n heard s → IsSound me n heard (take_reply id s).1
  unfolding take_reply
  take_reply-IsSound id s h = IsSound-same me n heard s _ h refl refl refl refl refl

  pub on_command_failed-IsSound :
      (id : ℕ) (why : FailReason) (s : Peer)
      → IsSound me n heard s
      → IsSound me n heard (on_command_failed id why s)
  unfolding on_command_failed
  on_command_failed-IsSound id why s h = told (take_reply id s).0
    where
      told :
          (o : Option ℕ)
          → IsSound me n heard
              (elim o [ none ↦ (take_reply id s).1 | some f ↦ call f why (take_reply id s).1 ])
      told none = take_reply-IsSound id s h
      told (some f) = call-IsSound me n heard f why _ (take_reply-IsSound id s h)

  wait_commit-IsSound :
      (idx term f : ℕ) (s : Peer)
      → IsSound me n heard s
      → IsSound me n heard (wait_commit idx term f s)
  unfolding wait_commit
  wait_commit-IsSound idx term f s h = IsSound-same me n heard s _ h refl refl refl refl refl

  pub on_command_logged-IsSound :
      (id idx term : ℕ) → Keeps (IsSound me n heard) (on_command_logged id idx term)
  unfolding on_command_logged
  on_command_logged-IsSound id idx term = record {
    at = λ s h.
        told s.raft_last_applied (take_reply id s).0 (take_reply id s).1
          (take_reply-IsSound id s h);
  }
    where
      told :
          (applied : ℕ) (o : Option ℕ) (s : Peer)
          → IsSound me n heard s
          → IsSound me n heard
              (◌>>=◌ {S = Peer}
                (pure tt)
                (λ _. elim o [
                  | none ↦ pure tt
                  | some f ↦
                      if ltb applied idx
                      then modify (wait_commit idx term f)
                      else raise assertion_error
                ])
                s).1
      told applied none s h = h
      told applied (some f) s h = elim (Bool-cases (ltb applied idx)) [
        | inl later ↦ rw later (wait_commit-IsSound idx term f s h)
        | inr early ↦ rw early h
      ]
