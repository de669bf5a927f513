-- ===== src/Raft/Handle.antt =====
-- Messages and connections (pysyncobjbc/syncobj.py, `_onMessageReceived`, `__onMessageReceived`), and
-- the state at the start (`__init__`, `__initInTickThread`).
use belcoin.Prelude.{
  ℕ, ◌+◌, ◌-◌, Bool, false, Option, none, some, List, [], ◌∷◌, ◌++◌, if◌then◌else◌, elem,
}
use belcoin.Exec.{Exec, modify}
use belcoin.Dict.{Dict, insert}
use belcoin.Raft.{
  Addr, Entry, Setup, Peer, Clock, Packet, request_vote, response_vote, append_entries, append_data,
  append_dump, next_node_idx, command_request, command_logged, command_failed, follower, is_leader,
  no_op,
}
use belcoin.Raft.Log.{current_log_index}
use belcoin.Raft.Election.{on_request_vote, on_response_vote}
use belcoin.Raft.Follow.{on_append_entries, on_append_data, on_append_dump}
use belcoin.Raft.Commands.{on_command_request, on_command_failed, on_command_logged}

-- The only entry of a new log
abbrev pub first_entry : Entry
first_entry = record { command = no_op ∷ []; idx = 1; term = 0 }

module _ ⦃C : Setup⦄ where
  -- `next_node_idx`
  unfoldable pub on_next_node_idx : Clock → Addr → ℕ → Bool → Bool → Peer → Peer
  on_next_node_idx clock from idx reset success s =
      if is_leader s.raft_state
      then record s {
        raft_next_index = if reset then insert from idx s.raft_next_index else s.raft_next_index;
        raft_match_index =
            if success then insert from (idx - 1) s.raft_match_index else s.raft_match_index;
        last_response_time = insert from clock.now s.last_response_time;
      }
      else s

  unfoldable pub on_message : Clock → Addr → Packet → Exec Peer (Unit {0})
  unfolding on_request_vote on_response_vote on_append_entries on_append_data on_append_dump
      on_next_node_idx on_command_request on_command_failed on_command_logged
  on_message clock from (request_vote term last_idx last_term) =
      modify (on_request_vote clock from term last_idx last_term)
  on_message clock from (response_vote term) = on_response_vote clock term
  on_message clock from (append_entries term commit prev entries) =
      on_append_entries clock from term commit prev entries
  on_message clock from (append_data term commit prev kind piece) =
      on_append_data clock from term commit prev kind piece
  on_message clock from (append_dump term commit part) =
      modify (on_append_dump clock from term commit part)
  on_message clock from (next_node_idx idx reset success) =
      modify (on_next_node_idx clock from idx reset success)
  on_message clock from (command_request command id) = modify (on_command_request from command id)
  on_message clock from (command_logged id idx term) = on_command_logged id idx term
  on_message clock from (command_failed id why) = modify (on_command_failed id why)

  -- The first message on a connection: the partner's address, or 'readonly' (`none`). The connection
  -- of an unknown partner is closed.
  unfoldable pub on_new_connection : Option Addr → Peer → Peer
  on_new_connection none s =
      let addr = C.readonly_addr s.readonly_nodes_counter in
      record s {
        readonly_nodes = s.readonly_nodes ++ (addr ∷ []);
        connected = s.connected ++ (addr ∷ []);
        raft_next_index = insert addr (current_log_index s.raft_log + 1) s.raft_next_index;
        raft_match_index = insert addr 0 s.raft_match_index;
        readonly_nodes_counter = s.readonly_nodes_counter + 1;
      }
  on_new_connection (some addr) s =
      if elem addr s.nodes then record s { connected = s.connected ++ (addr ∷ []) } else s

  -- `d[addr] = value` for each node
  unfoldable pub all_at : ℕ → List Addr → Dict ℕ
  all_at value [] = []
  all_at value (addr ∷ more) = insert addr value (all_at value more)

  -- Without a journal on the disk
  unfoldable pub init_sync_obj : Clock → Option Addr → List Addr → ℕ → C.Serializer → Peer
  unfolding all_at
  init_sync_obj clock me others self_version ser = record {
    self_node_addr = me;
    other_nodes_addrs = others;
    nodes = others;
    readonly_nodes = [];
    connected = [];
    raft_state = follower;
    raft_current_term = 0;
    voted_for = none;
    votes_count = 0;
    raft_leader = none;
    raft_election_deadline = clock.now + clock.timeout;
    raft_log = first_entry ∷ [];
    raft_commit_index = 1;
    raft_last_applied = 1;
    raft_next_index = all_at 2 others;
    raft_match_index = all_at 0 others;
    last_response_time = [];
    leader_commit_index = none;
    on_ready_called = false;
    change_cluster_idx = none;
    noop_idx = none;
    recv_transmission = [];
    new_append_entries_time = 0;
    last_readonly_check = 0;
    readonly_nodes_counter = 0;
    self_code_version = self_version;
    enabled_code_version = 0;
    commands_queue = [];
    commands_waiting_commit = [];
    commands_local_counter = 0;
    commands_waiting_reply = [];
    serializer = ser;
    sent = [];
    called = [];
    applied = [];
  }
