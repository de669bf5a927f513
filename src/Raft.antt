-- ===== src/Raft.antt =====
-- The state of `SyncObj` (pysyncobjbc/syncobj.py, `__init__`), the repository's fork of PySyncObj,
-- and what it takes from outside: configuration, `pickle`, and the full dumps of `Serializer`.
pub mod Log
pub mod Send
pub mod Append
pub mod Cluster
pub mod Election
pub mod Snapshot
pub mod Follow
pub mod Commands
pub mod Tick
pub mod Handle
pub mod Sound
pub mod Network
use belcoin.Prelude.{
  ℕ, ◌+◌, ◌≡◌, Bool, true, false, ◌&&◌, Option, none, some, List, [], ◌∷◌, ◌++◌, elem,
  if◌then◌else◌,
}
use belcoin.Exec.{Exec, modify, pure}
use belcoin.Dict.{Dict}
use belcoin.Codec.{Octets}

-- Addresses 'host:port', as numbers
abbrev pub Addr : Type 0
Addr = ℕ

-- `(command, idx, term)`, as the journal keeps it
pub record Entry : Type 0 where
  pub command : Octets
  pub idx : ℕ
  pub term : ℕ

pub data RaftState : Type 0 where
  follower : RaftState
  candidate : RaftState
  leader : RaftState

abbrev pub is_leader : RaftState → Bool
is_leader leader = true
is_leader _ = false

abbrev pub is_candidate : RaftState → Bool
is_candidate candidate = true
is_candidate _ = false

-- `_COMMAND_TYPE`
abbrev pub regular : ℕ
regular = 0

abbrev pub no_op : ℕ
no_op = 1

abbrev pub membership : ℕ
membership = 2

abbrev pub version : ℕ
version = 3

pub data FailReason : Type 0 where
  success : FailReason
  queue_full : FailReason
  missing_leader : FailReason
  discarded : FailReason
  not_leader : FailReason
  leader_changed : FailReason
  request_denied : FailReason

-- Whom a command's outcome is told: a function, by its number, or the node and the request from which
-- the command came.
pub data Callback : Type 0 where
  function : ℕ → Callback
  request : Addr → ℕ → Callback

-- The pickled list `['add', node]` or `['rem', node]`, or another one
pub data Change : Type 0 where
  add_node : Addr → Change
  rem_node : Addr → Change
  other_change : Change

pub data Transmission : Type 0 where
  start : Transmission
  process : Transmission
  finish : Transmission

-- The part `(data, isFirst, isLast)` of a full dump
pub record Part : Type 0 where
  pub content : Octets
  pub is_first : Bool
  pub is_last : Bool

-- What a dump holds beside the replicated object: the last applied entry, the one before, the cluster
pub record Dump : Type 0 where
  pub last : Entry
  pub before : Entry
  pub cluster : List Addr

-- The messages between nodes. `prevLogIdx` and `prevLogTerm` are both None or both numbers.
pub data Packet : Type 0 where
  request_vote : ℕ → ℕ → ℕ → Packet
  response_vote : ℕ → Packet
  append_entries : ℕ → ℕ → Option (ℕ × ℕ) → List Entry → Packet
  append_data : ℕ → ℕ → Option (ℕ × ℕ) → Transmission → Octets → Packet
  append_dump : ℕ → ℕ → Option Part → Packet
  next_node_idx : ℕ → Bool → Bool → Packet
  command_request : Octets → Option ℕ → Packet
  command_logged : ℕ → ℕ → ℕ → Packet
  command_failed : ℕ → FailReason → Packet

pub record Setup : Type 1 where
  -- `SyncObjConf`
  pub batch_bytes : ℕ
  pub use_batch : Bool
  pub dynamic_membership : Bool
  pub commands_wait_leader : Bool
  pub commands_queue_size : ℕ
  pub append_entries_period : ℕ
  pub leader_fallback_timeout : ℕ
  -- the name `str(n)` of the `n`-th node that only reads
  pub readonly_addr : ℕ → Addr
  -- package `pickle`: what was dumped is loaded again
  pub dumps : Entry → Octets
  pub loads : Octets → Option Entry
  pub loads-dumps : (e : Entry) → loads (dumps e) ≡ some e
  pub loads_change : Octets → Option Change
  pub loads_version : Octets → Option ℕ
  -- whether the bytes are a call of a replicated method, which then returns
  pub is_call : Octets → Bool
  -- `Serializer`
  pub Serializer : Type 0
  pub get_transmission_data : Serializer → Addr → Option Part × Serializer
  pub cancel_transmission : Serializer → Addr → Serializer
  pub set_transmission_data : Serializer → Part → Bool × Serializer
  pub deserialize : Serializer → Option Dump

pub record SyncObj (Ser : Type 0) : Type 0 where
  pub self_node_addr : Option Addr
  pub other_nodes_addrs : List Addr
  -- the addresses of `__nodes` and of `__readonlyNodes`, and of those to which there is a connection
  pub nodes : List Addr
  pub readonly_nodes : List Addr
  pub connected : List Addr
  pub raft_state : RaftState
  pub raft_current_term : ℕ
  pub voted_for : Option Addr
  pub votes_count : ℕ
  pub raft_leader : Option Addr
  pub raft_election_deadline : ℕ
  pub raft_log : List Entry
  pub raft_commit_index : ℕ
  pub raft_last_applied : ℕ
  pub raft_next_index : Dict ℕ
  pub raft_match_index : Dict ℕ
  pub last_response_time : Dict ℕ
  pub leader_commit_index : Option ℕ
  pub on_ready_called : Bool
  pub change_cluster_idx : Option ℕ
  pub noop_idx : Option ℕ
  pub recv_transmission : Octets
  pub new_append_entries_time : ℕ
  pub last_readonly_check : ℕ
  pub readonly_nodes_counter : ℕ
  pub self_code_version : ℕ
  pub enabled_code_version : ℕ
  pub commands_queue : List (Octets × Option Callback)
  pub commands_waiting_commit : Dict (List (ℕ × ℕ))
  pub commands_local_counter : ℕ
  pub commands_waiting_reply : Dict ℕ
  pub serializer : Ser
  -- what it did, last first: packets sent, functions called with a reason, commands applied
  pub sent : List (Addr × Packet)
  pub called : List (ℕ × FailReason)
  pub applied : List Octets

abbrev pub Peer : ⦃C : Setup⦄ → Type 0
Peer ⦃C⦄ = SyncObj C.Serializer

-- One event's time: what `time.time()` and `__generateRaftTimeout` return, how many rounds after the
-- first the loop of `__sendAppendEntries` may make for a node, and how many `_checkCommandsToApply`
-- may make, before `appendEntriesPeriod` is over.
pub record Clock : Type 0 where
  pub now : ℕ
  pub timeout : ℕ
  pub append_rounds : Addr → ℕ
  pub command_rounds : ℕ

module _ ⦃C : Setup⦄ where
  -- `node.send` drops what it cannot send.
  unfoldable pub node_send : Addr → Packet → Peer → Peer
  node_send to p s = if elem to s.connected then record s { sent = (to, p) ∷ s.sent } else s

  -- `__send`
  unfoldable pub send : Addr → Packet → Peer → Peer
  unfolding node_send
  send to p s = if elem to (s.nodes ++ s.readonly_nodes) then node_send to p s else s

  unfoldable pub call : ℕ → FailReason → Peer → Peer
  call f why s = record s { called = (f, why) ∷ s.called }

  -- `__callErrCallback`
  unfoldable pub call_err_callback : FailReason → Option Callback → Peer → Peer
  unfolding call send
  call_err_callback why none s = s
  call_err_callback why (some (function f)) s = call f why s
  call_err_callback why (some (request node id)) s = send node (command_failed id why) s
