-- ===== src/Raft/Network.antt =====
-- Nodes 0 to n - 1 over a network: any node may tick, and a message that was sent may arrive late,
-- again or never, but an answer to a request for votes arrives once at most. Connections come and go,
-- and clients give commands; none of them changes the cluster. A node does not start again, since
-- `SyncObj` does not write its term and its vote to the disk. Left out are entries that are sent in
-- pieces (`Send`) and full dumps.
pub mod Tally
pub mod Books
pub mod Good
pub mod Safety
pub mod Matching
use belcoin.Prelude.{
  ℕ, zero, suc, ◌<◌, ◌≡◌, ◌≢◌, Bool, true, false, Option, none, some, List, [], ◌∷◌, ◌==◌, ◌&&◌,
  if◌then◌else◌, In, ◌||◌,
}
use belcoin.Codec.{Octets}
use belcoin.Raft.{Addr, Setup, SyncObj, Peer, Clock, Packet, response_vote, Callback, function}
use belcoin.Raft.Log.Laws.{is_change}
use belcoin.Raft.Commands.{apply_command}
use belcoin.Raft.Tick.{on_tick}
use belcoin.Raft.Handle.{on_message, on_new_connection, init_sync_obj}
use belcoin.Raft.Sound.Handle.{IsPlain}

-- The addresses below `n` but `me`
abbrev pub others : ℕ → ℕ → List Addr
others zero me = []
others (suc n) me = let rest = others n me in if n == me then rest else n ∷ rest

abbrev pub update {ℓ} : {A : Type ℓ} → (ℕ → A) → ℕ → A → ℕ → A
update f i x j = if i == j then x else f j

-- `delivered v c t`: the answer of `v` to `c` for term `t` has arrived.
pub record Network (Ser : Type 0) : Type 0 where
  pub peers : ℕ → SyncObj Ser
  pub delivered : Addr → Addr → ℕ → Bool

abbrev pub deliver_to : (Addr → Addr → ℕ → Bool) → Addr → Addr → ℕ → Addr → Addr → ℕ → Bool
deliver_to d v c t v' c' t' = ((v == v') && ((c == c') && (t == t'))) || d v' c' t'

module _ ⦃C : Setup⦄ (n : ℕ) where
  abbrev pub become : Network C.Serializer → ℕ → Peer → Network C.Serializer
  become N i s = record N { peers = update N.peers i s }

  pub data Step (N : Network C.Serializer) : Network C.Serializer → Type 0 where
    tick : (i : ℕ) (clock : Clock) → i < n → Step N (become N i (on_tick clock (N.peers i)).1)
    arrive :
        (i j : ℕ) (clock : Clock) (p : Packet)
        → i < n
        → j < n
        → IsPlain p
        → In (j, p) (N.peers i).sent
        → Step N (become N j (on_message clock i p (N.peers j)).1)
    vote_arrives :
        (i j : ℕ) (clock : Clock) (term : ℕ)
        → i < n
        → j < n
        → i ≢ j
        → In (j, response_vote term) (N.peers i).sent
        → N.delivered i j term ≡ false
        → Step N (record {
          peers = update N.peers j (on_message clock i (response_vote term) (N.peers j)).1;
          delivered = deliver_to N.delivered i j term;
        })
    connect :
        (i : ℕ) (addr : Option Addr)
        → i < n
        → Step N (become N i (on_new_connection addr (N.peers i)))
    disconnect :
        (i : ℕ) (left : List Addr)
        → i < n
        → Step N (become N i (record (N.peers i) { connected = left }))
    command :
        (i : ℕ) (bytes : Octets) (callback : Option Callback)
        → i < n
        → is_change bytes ≡ false
        → Step N (become N i (apply_command bytes callback (N.peers i)))

  pub data Reach : Network C.Serializer → Type 0 where
    start :
        (clock : ℕ → Clock) (ver : ℕ → ℕ) (ser : ℕ → C.Serializer)
        → Reach (record {
          peers = λ i. init_sync_obj (clock i) (some i) (others n i) (ver i) (ser i);
          delivered = λ v c t. false;
        })
    later : {N M : Network C.Serializer} → Reach N → Step N M → Reach M
