-- ===== src/Raft/Sound/Handle.antt =====
-- A message keeps what holds of every node, and a node starts with it.
use belcoin.Prelude.{
  elem, ℕ, ◌+◌, ◌≡◌, refl, Bool, false, Option, none, some, List, [], arith, length, Bool-cases,
  inl, inr,
}
use belcoin.Raft.{
  Addr, Setup, Peer, Clock, Packet, request_vote, response_vote, append_entries, append_data,
  append_dump, next_node_idx, command_request, command_logged, command_failed, is_leader,
}
use belcoin.Raft.Handle.{on_next_node_idx, on_message, on_new_connection, init_sync_obj}
use belcoin.Raft.Sound.{Heard, IsSound, IsSound-same, Fits}
use belcoin.Raft.Log.Chain.{Linked}
use belcoin.Raft.Sound.Grant.{on_request_vote-IsSound}
use belcoin.Raft.Sound.Follow.{on_append_entries-IsSound}
use belcoin.Raft.Sound.Command.{
  on_command_request-IsSound, on_command_failed-IsSound, on_command_logged-IsSound,
}

-- Every message but an answer to a request for votes, a piece of an entry, and a part of a dump
abbrev pub IsPlain : Packet → Type 0
IsPlain (response_vote term) = ⊥
IsPlain (append_data term commit prev kind piece) = ⊥
IsPlain (append_dump term commit part) = ⊥
IsPlain p = Unit

module _ ⦃C : Setup⦄ (me n : ℕ) (heard : Heard) where
  on_next_node_idx-IsSound :
      (clock : Clock) (from : Addr) (idx : ℕ) (reset success : Bool) (s : Peer)
      → IsSound me n heard s
      → IsSound me n heard (on_next_node_idx clock from idx reset success s)
  unfolding on_next_node_idx
  on_next_node_idx-IsSound clock from idx reset success s h =
      elim (Bool-cases (is_leader s.raft_state)) [
        | inl leading ↦ rw leading (IsSound-same me n heard s _ h refl refl refl refl refl)
        | inr other ↦ rw other h
      ]

  pub on_message-IsSound :
      (clock : Clock) (from : Addr) (p : Packet) (s : Peer)
      → IsPlain p
      → Fits p
      → Linked heard.book p
      → IsSound me n heard s
      → IsSound me n heard (on_message clock from p s).1
  unfolding on_message
  on_message-IsSound clock from (request_vote term last_idx last_term) s q f l h =
      on_request_vote-IsSound me n heard clock from term last_idx last_term s h
  on_message-IsSound clock from (response_vote term) s q f l h = elim q [ ]
  on_message-IsSound clock from (append_entries term commit none entries) s q f l h =
      on_append_entries-IsSound me n heard clock from term commit none entries s f.1 f.0 l h
  on_message-IsSound clock from (append_entries term commit (some (prev, t)) entries) s q f l h =
      on_append_entries-IsSound me n heard clock from term commit (some (prev, t)) entries s f.1 f.0
        l h
  on_message-IsSound clock from (append_data term commit prev kind piece) s q f l h = elim q [ ]
  on_message-IsSound clock from (append_dump term commit part) s q f l h = elim q [ ]
  on_message-IsSound clock from (next_node_idx idx reset success) s q f l h =
      on_next_node_idx-IsSound clock from idx reset success s h
  on_message-IsSound clock from (command_request command id) s q f l h =
      on_command_request-IsSound me n heard from command id s f h
  on_message-IsSound clock from (command_logged id idx term) s q f l h =
      (on_command_logged-IsSound me n heard id idx term).at s h
  on_message-IsSound clock from (command_failed id why) s q f l h =
      on_command_failed-IsSound me n heard id why s h

  pub on_new_connection-IsSound :
      (addr : Option Addr) (s : Peer)
      → IsSound me n heard s
      → IsSound me n heard (on_new_connection addr s)
  unfolding on_new_connection
  on_new_connection-IsSound none s h = IsSound-same me n heard s _ h refl refl refl refl refl
  on_new_connection-IsSound (some addr) s h = elim (Bool-cases (elem addr s.nodes)) [
    | inl known ↦ rw known (IsSound-same me n heard s _ h refl refl refl refl refl)
    | inr other ↦ rw other h
  ]

  -- At the start no answer has arrived.
  pub init_sync_obj-IsSound :
      (clock : Clock) (others : List Addr) (ver : ℕ) (ser : C.Serializer)
      → length others + 1 ≡ n
      → ((c t : ℕ) → heard.gave c t ≡ false)
      → heard.book ≡ []
      → (h : IsSound me n heard (init_sync_obj clock (some me) others ver ser)) × (h.book ≡ [])
  unfolding init_sync_obj
  init_sync_obj-IsSound clock others ver ser size silent blank = (
    record {
      log = (refl, refl, tt);
      committed = omega arith;
      begun = omega arith;
      posted = tt;
      queued = tt;
      fair = record {
        size = size;
        self = refl;
        past = λ c t i. elim i [ ];
        own = λ c t i. elim i [ ];
        one = λ c d t i. elim i [ ];
        kept = λ c t g. absurd (cc (g, silent c t));
        stands = λ e. cc;
        counted = λ e. cc;
        elected = λ e. cc;
      };
      book = [];
      facts = record {
        keeps = rw blank (λ f i. i);
        wrote = λ f i ne. elim i [ ];
        won = λ f i a. elim i [ ];
        single = λ f g i. elim i [ ];
        rivals = rw blank (λ f i. elim i [ ]);
      };
      author = record {
        mine = λ f i. elim i [ ];
        claimed = λ f i. elim i [ ];
        proper = λ f i. elim i [ ];
        candid = λ f i. elim i [ ];
        leading = λ f i. elim i [ ];
      };
      chained = (refl, tt);
      linked = tt;
    },
    refl,
  )
