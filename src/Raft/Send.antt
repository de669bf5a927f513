-- ===== src/Raft/Send.antt =====
-- Replies to a leader (pysyncobjbc/syncobj.py, `__sendNextNodeIdx`) and the large entries that a
-- leader sends in pieces (`__sendAppendEntries`).
pub mod Chunks
pub mod Broken
use belcoin.Prelude.{
  ℕ, zero, suc, ◌+◌, Bool, Option, none, some, List, [], ◌∷◌, ◌++◌, leb, ◌==◌, if◌then◌else◌,
  length, take,
}
use belcoin.Codec.{Octets}
use belcoin.Raft.{
  Addr, Entry, Peer, Setup, Packet, Transmission, start, process, finish, next_node_idx,
  append_data, send, node_send,
}
use belcoin.Raft.Log.{current_log_index, drop}

module _ ⦃C : Setup⦄ where
  -- An omitted `nextNodeIdx` is the place after the log.
  unfoldable pub send_next_node_idx : Addr → Bool → Option ℕ → Bool → Peer → Peer
  unfolding send
  send_next_node_idx to reset none success s =
      send to (next_node_idx (current_log_index s.raft_log + 1) reset success) s
  send_next_node_idx to reset (some idx) success s = send to (next_node_idx idx reset success) s

-- The test for the last piece compares with the length of the command, `command_size`.
unfoldable pub transmission_at : ℕ → ℕ → ℕ → Transmission
transmission_at batch command_size pos =
    if pos == 0 then start else if leb command_size (pos + batch) then finish else process

-- `for pos in xrange(0, len(entry), batchSizeBytes)`: `rest` is `entry[pos:]`. Each round takes a
-- byte at least, so as many rounds as there are bytes are enough.
unfoldable pub chunks_from : ℕ → ℕ → ℕ → ℕ → Octets → List (Transmission × Octets)
unfolding transmission_at
chunks_from zero batch command_size pos rest = []
chunks_from (suc fuel) batch command_size pos [] = []
chunks_from (suc fuel) batch command_size pos (b ∷ rest) =
    (transmission_at batch command_size pos, take batch (b ∷ rest))
    ∷ chunks_from fuel batch command_size (pos + batch) (drop batch (b ∷ rest))

unfoldable pub chunks : ℕ → ℕ → Octets → List (Transmission × Octets)
unfolding chunks_from
chunks batch command_size entry = chunks_from (length entry) batch command_size 0 entry

-- What a follower does with the pieces of one entry: the bytes of which it then
-- loads an entry, and those that it keeps for the next piece.
unfoldable pub receive : Octets → Transmission → Octets → Option Octets × Octets
receive kept start new = (none, new)
receive kept process new = (none, kept ++ new)
receive kept finish new = (some (kept ++ new), [])

module _ ⦃C : Setup⦄ where
  unfoldable pub send_chunks :
      Addr → ℕ → ℕ → Option (ℕ × ℕ) → List (Transmission × Octets) → Peer → Peer
  unfolding node_send
  send_chunks to term commit prev [] s = s
  send_chunks to term commit prev ((kind, piece) ∷ more) s =
      send_chunks to term commit prev more
        (node_send to (append_data term commit prev kind piece) s)
