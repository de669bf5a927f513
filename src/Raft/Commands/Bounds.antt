-- ===== src/Raft/Commands/Bounds.antt =====
-- The length of the queue of commands.
use belcoin.Prelude.{
  ◌+◌, ◌≤◌, ◌≡◌, ◌∙◌, refl, false, Option, none, some, [], ◌∷◌, ◌++◌, ltb, leb, if◌then◌else◌,
  arith, length, length-append, Bool-cases, inl, inr,
}
use belcoin.Codec.{Octets}
use belcoin.Raft.{
  Addr, Setup, Peer, Callback, function, request, queue_full, call, send, node_send,
  call_err_callback, FailReason, Packet,
}
use belcoin.Raft.Commands.{apply_command}

module _ ⦃C : Setup⦄ where
  send-queue : (to : Addr) (p : Packet) (s : Peer) → (send to p s).commands_queue ≡ s.commands_queue
  unfolding send node_send
  send-queue to p s = ground arith

  refusal-queue :
      (why : FailReason) (callback : Option Callback) (s : Peer)
      → (call_err_callback why callback s).commands_queue ≡ s.commands_queue
  unfolding call_err_callback call
  refusal-queue why none s = refl
  refusal-queue why (some (function f)) s = refl
  refusal-queue why (some (request node id)) s = send-queue node _ s

  -- A command is queued behind the others exactly if no more commands than the configured size are
  -- queued, and otherwise the queue stays as it is; so a queue of one more than that size, which is
  -- reached, is never exceeded.
  pub apply_command-bounds :
      (command : Octets) (callback : Option Callback) (s : Peer)
      → ((apply_command command callback s).commands_queue ≡ (
          if leb (length s.commands_queue) C.commands_queue_size
          then s.commands_queue ++ ((command, callback) ∷ [])
          else s.commands_queue))
        × (length s.commands_queue ≤ C.commands_queue_size + 1
            → length (apply_command command callback s).commands_queue ≤ C.commands_queue_size + 1)
  unfolding apply_command
  apply_command-bounds command callback s =
      elim (Bool-cases (ltb C.commands_queue_size (length s.commands_queue))) [
        | inl full ↦
            let same = refusal-queue queue_full callback s in
            (rw full (same ∙ ground arith), λ le. rw full (rw same le))
        | inr room ↦ (
          rw room (ground arith),
          λ le. rw room (
              omega
                (arith, length-append s.commands_queue ((command, callback) ∷ []), room_le room)),
        )
      ]
    where
      room_le :
          ltb C.commands_queue_size (length s.commands_queue) ≡ false
          → length s.commands_queue ≤ C.commands_queue_size
      room_le h = ground arith
