-- ===== src/Raft/Sound.antt =====
-- What holds of every node while the cluster stays the same, and that sending keeps it.
pub mod Append
pub mod Votes
pub mod Authors
pub mod Lead
pub mod Grant
pub mod Answer
pub mod Accept
pub mod Follow
pub mod Command
pub mod Tick
pub mod Handle
use belcoin.Prelude.{
  sym, In, ℕ, zero, suc, ◌+◌, ◌-◌, ◌*◌, ◌<◌, ◌≤◌, ◌≡◌, ◌≢◌, refl, ap, Bool, true, false, ◌&&◌, ◌||◌,
  Option, none, some, List, [], ◌∷◌, ◌++◌, arith, ltb, leb, if◌then◌else◌, length, All, elem,
  Bool-cases, Option-cases, inl, inr,
}
use mathlib.Core.Path.{subst}
use belcoin.Exec.{Exec, pure, raise, gets, modify, ◌>>=◌, ◌>>◌, index_error}
use belcoin.Exec.Keeps.{
  Keeps, Keeps-raise, Keeps-modify, Keeps-bind, Keeps-pure, bind-at, keeps_rules,
}
use belcoin.Codec.{Octets}
use belcoin.Raft.{
  RaftState, follower, leader, is_leader, is_candidate, response_vote, RaftState, Addr, Entry,
  Setup, Peer, Clock, Packet, append_entries, append_data, append_dump, command_request, FailReason,
  Callback, function, request, Transmission, send, node_send, call, call_err_callback, Part,
}
use belcoin.Raft.Log.{
  current_log_index, first_idx, last_from, get_entries_sized, get_prev_log_index_term, term_of,
  get_entries_count,
}
use belcoin.Raft.Log.Laws.{is_change, Run, IsLog, get_entries_sized-Run}
use belcoin.Raft.Log.Chain.{Fact, Chain, Linked, LinkedTo, Within}
use belcoin.Raft.Send.{send_next_node_idx, send_chunks, chunks}
use belcoin.Raft.Append.{
  set_next_index, send_entries, move_next_index, append_from, skip_dump, after_part, append_part,
  append_round, next_index_of, append_loop, append_to, send_append_entries,
}

-- A message that can be taken: its entries follow the entry that it names, its commit index is not
-- before the first entry, and no command in it changes the cluster.
abbrev pub Fits : Packet → Type 0
Fits (append_entries term commit none es) = (es ≡ []) × (1 ≤ commit)
Fits (append_entries term commit (some (prev, t)) es) = Run (prev + 1) es × (1 ≤ commit)
Fits (command_request command id) = is_change command ≡ false
Fits _ = Unit

-- The answers to requests for votes that were sent: to whom, and for which term
abbrev pub answer : Addr → Packet → List (Addr × ℕ) → List (Addr × ℕ)
answer to (response_vote term) rest = (to, term) ∷ rest
answer to p rest = rest

abbrev pub answers : List (Addr × Packet) → List (Addr × ℕ)
answers [] = []
answers ((to, p) ∷ sent) = answer to p (answers sent)

abbrev pub is_follower : RaftState → Bool
is_follower follower = true
is_follower _ = false

-- What elections depend on
pub record Ballot : Type 0 where
  pub answers : List (Addr × ℕ)
  pub term : ℕ
  pub voted_for : Option Addr
  pub state : RaftState
  pub votes : ℕ
  pub others : ℕ
  pub self : Option Addr

-- The answers that have arrived: of how many other nodes for a term, and which of the own ones; and
-- the book of all entries that were made
pub record Heard : Type 0 where
  pub book : List Fact
  pub count : ℕ → ℕ
  pub gave : Addr → ℕ → Bool

-- Node `me` of `n` nodes gives one vote at most in a term, its own where it stands, and leads only with
-- the votes of a majority.
pub record IsFair (me n : ℕ) (heard : Heard) (b : Ballot) : Type 0 where
  pub size : b.others + 1 ≡ n
  pub self : b.self ≡ some me
  pub past : (c t : ℕ) → In (c, t) b.answers → t ≤ b.term
  pub own : (c t : ℕ) → In (c, t) b.answers → t ≡ b.term → b.voted_for ≡ some c
  pub one : (c d t : ℕ) → In (c, t) b.answers → In (d, t) b.answers → c ≡ d
  pub kept : (c t : ℕ) → heard.gave c t ≡ true → In (c, t) b.answers
  pub stands : is_follower b.state ≡ false → b.voted_for ≡ some me
  pub counted : is_follower b.state ≡ false → b.votes ≤ heard.count b.term + 1
  pub elected : is_leader b.state ≡ true → n < 2 * (heard.count b.term + 1)

-- A book that has the entries of `heard` and those that the node has made since. A leader that made an
-- entry had a majority, and another node that has one in that term has lost a vote of its own.
pub record IsBook (me n : ℕ) (heard : Heard) (book : List Fact) : Type 0 where
  pub keeps : Within heard.book book
  pub wrote : (f : Fact) → In f book → f.author ≢ me → In f heard.book
  pub won : (f : Fact) → In f book → f.author ≡ me → n < 2 * (heard.count f.term + 1)
  pub single : (f g : Fact) → In f book → In g book → f.idx ≡ g.idx → f.term ≡ g.term → f ≡ g
  pub rivals :
      (f : Fact)
      → In f heard.book
      → f.author ≢ me
      → n < 2 * (heard.count f.term + 1)
      → heard.gave f.author f.term ≡ true

-- What a node that made entries does not do in their terms: it votes for no other, and does not lead
-- again; and a leader has all entries of its term.
pub record IsAuthor (me : ℕ) (book : List Fact) (b : Ballot) (last : ℕ) : Type 0 where
  pub mine : (f : Fact) → In f book → f.author ≡ me → f.term ≤ b.term
  pub claimed : (f : Fact) → In f book → f.author ≡ me → f.term ≡ b.term → b.voted_for ≡ some me
  pub proper :
      (f : Fact) → In f book → f.author ≡ me → (x : Addr) → In (x, f.term) b.answers → x ≡ me
  pub candid :
      (f : Fact) → In f book → f.author ≡ me → is_candidate b.state ≡ true → f.term ≢ b.term
  pub leading : (f : Fact) → In f book → is_leader b.state ≡ true → f.term ≡ b.term → f.idx ≤ last

-- Entries that stand where the message says
abbrev pub Follows : Option (ℕ × ℕ) → List Entry → Type 0
Follows none es = es ≡ []
Follows (some (prev, t)) es = Run (prev + 1) es

pub Fits-Follows :
    (term commit : ℕ) (prev : Option (ℕ × ℕ)) (es : List Entry)
    → Follows prev es
    → 1 ≤ commit
    → Fits (append_entries term commit prev es)
Fits-Follows term commit none es f c = (f, c)
Fits-Follows term commit (some (prev, t)) es f c = (f, c)

-- `gets` followed by what depends on it
pub Keeps-asks :
    {S A B : Type 0} {P : S → Type 0} (f : S → A) (g : A → Exec S B)
    → ((s : S) → P s → P (g (f s) s).1)
    → Keeps P (gets f >>= g)
Keeps-asks f g k = record { at = k }

module _ ⦃C : Setup⦄ where
  abbrev pub ballot : Peer → Ballot
  ballot s = record {
    answers = answers s.sent;
    term = s.raft_current_term;
    voted_for = s.voted_for;
    state = s.raft_state;
    votes = s.votes_count;
    others = length s.nodes;
    self = s.self_node_addr;
  }

module _ ⦃C : Setup⦄ (me n : ℕ) (heard : Heard) where
  pub record IsSound (s : Peer) : Type 0 where
    pub log : IsLog s.raft_log
    pub committed : s.raft_commit_index ≤ current_log_index s.raft_log
    pub begun : 1 ≤ s.raft_commit_index
    pub posted : All (λ (m : Addr × Packet). Fits m.1) s.sent
    pub queued : All (λ (m : Octets × Option Callback). is_change m.0 ≡ false) s.commands_queue
    pub fair : IsFair me n heard (ballot s)
    pub book : List Fact
    pub facts : IsBook me n heard book
    pub author : IsAuthor me book (ballot s) (current_log_index s.raft_log)
    pub chained : Chain book s.raft_log
    pub linked : All (λ (m : Addr × Packet). Linked book m.1) s.sent

  -- A message that follows the log, whatever book that is in
  abbrev pub FromLog : Packet → Peer → Type 0
  FromLog p s = (book : List Fact) → Chain book s.raft_log → Linked book p

  pub node_send-IsSound :
      (to : Addr) (p : Packet) (s : Peer)
      → Fits p
      → answer to p (answers s.sent) ≡ answers s.sent
      → FromLog p s
      → IsSound s
      → IsSound (node_send to p s)
  unfolding node_send
  node_send-IsSound to p s f q l h = elim (Bool-cases (elem to s.connected)) [
    | inl up ↦ rw up (record {
      log = h.log;
      committed = h.committed;
      begun = h.begun;
      posted = (f, h.posted);
      queued = h.queued;
      fair = rw q h.fair;
      book = h.book;
      facts = h.facts;
      author = rw q h.author;
      chained = h.chained;
      linked = (l h.book h.chained, h.linked);
    })
    | inr down ↦ rw down h
  ]

  pub send-IsSound :
      (to : Addr) (p : Packet) (s : Peer)
      → Fits p
      → answer to p (answers s.sent) ≡ answers s.sent
      → FromLog p s
      → IsSound s
      → IsSound (send to p s)
  unfolding send
  send-IsSound to p s f q l h = elim (Bool-cases (elem to (s.nodes ++ s.readonly_nodes))) [
    | inl known ↦ rw known (node_send-IsSound to p s f q l h)
    | inr other ↦ rw other h
  ]

  -- The rest of the state does not matter.
  pub IsSound-same :
      (s s' : Peer)
      → IsSound s
      → s'.raft_log ≡ s.raft_log
      → s'.raft_commit_index ≡ s.raft_commit_index
      → s'.sent ≡ s.sent
      → s'.commands_queue ≡ s.commands_queue
      → ballot s' ≡ ballot s
      → IsSound s'
  IsSound-same s s' h a b c d x = record {
    log = rw a h.log;
    committed = rw a (rw b h.committed);
    begun = rw b h.begun;
    posted = rw c h.posted;
    queued = rw d h.queued;
    fair = subst (IsFair me n heard) (sym x) h.fair;
    book = h.book;
    facts = h.facts;
    author =
        rw a (subst (λ b. IsAuthor me h.book b (current_log_index s.raft_log)) (sym x) h.author);
    chained = rw a h.chained;
    linked = rw c h.linked;
  }

  pub call-IsSound : (f : ℕ) (why : FailReason) (s : Peer) → IsSound s → IsSound (call f why s)
  unfolding call
  call-IsSound f why s h = IsSound-same s _ h refl refl refl refl refl

  pub call_err_callback-IsSound :
      (why : FailReason) (callback : Option Callback) (s : Peer)
      → IsSound s
      → IsSound (call_err_callback why callback s)
  unfolding call_err_callback
  call_err_callback-IsSound why none s h = h
  call_err_callback-IsSound why (some (function f)) s h = call-IsSound f why s h
  call_err_callback-IsSound why (some (request node id)) s h =
      send-IsSound node _ s tt refl (λ book c. tt) h

  pub send_next_node_idx-IsSound :
      (to : Addr) (reset : Bool) (idx : Option ℕ) (success : Bool) (s : Peer)
      → IsSound s
      → IsSound (send_next_node_idx to reset idx success s)
  unfolding send_next_node_idx
  send_next_node_idx-IsSound to reset none success s h =
      send-IsSound to _ s tt refl (λ book c. tt) h
  send_next_node_idx-IsSound to reset (some idx) success s h =
      send-IsSound to _ s tt refl (λ book c. tt) h

  pub send_chunks-IsSound :
      (to : Addr) (term commit : ℕ) (prev : Option (ℕ × ℕ)) (pieces : List (Transmission × Octets))
      (s : Peer)
      → IsSound s
      → IsSound (send_chunks to term commit prev pieces s)
  unfolding send_chunks
  send_chunks-IsSound to term commit prev [] s h = h
  send_chunks-IsSound to term commit prev ((kind, piece) ∷ more) s h =
      send_chunks-IsSound to term commit prev more
        (node_send to (append_data term commit prev kind piece) s)
        (node_send-IsSound to _ s tt refl (λ book c. tt) h)

  pub send_entries-IsSound :
      (to : Addr) (prev : Option (ℕ × ℕ)) (es : List Entry) (s : Peer)
      → Follows prev es
      → ((book : List Fact) → Chain book s.raft_log → LinkedTo book prev es)
      → IsSound s
      → IsSound (send_entries to prev es s)
  unfolding send_entries
  send_entries-IsSound to prev [] s f l h =
      node_send-IsSound to _ s
        (Fits-Follows s.raft_current_term s.raft_commit_index prev [] f h.begun) refl l h
  send_entries-IsSound to prev (e ∷ []) s f l h =
      elim (Bool-cases (leb C.batch_bytes (length e.command))) [
        | inl large ↦ rw large (send_chunks-IsSound to _ _ prev _ s h)
        | inr small ↦ rw small (
            node_send-IsSound to _ s
              (Fits-Follows s.raft_current_term s.raft_commit_index prev (e ∷ []) f h.begun) refl l
              h)
      ]
  send_entries-IsSound to prev (e ∷ e' ∷ es) s f l h =
      node_send-IsSound to _ s
        (Fits-Follows s.raft_current_term s.raft_commit_index prev (e ∷ e' ∷ es) f h.begun) refl l h

  pub set_next_index-IsSound :
      (to : Addr) (idx : ℕ) (s : Peer) → IsSound s → IsSound (set_next_index to idx s)
  unfolding set_next_index
  set_next_index-IsSound to idx s h = IsSound-same s _ h refl refl refl refl refl
