-- ===== src/Raft/Log/Chain.antt =====
-- Logs whose entries stand in a book with the term of the entry before them. `SyncObj` keeps no such
-- book; it is what the logs of all nodes have in common.
use belcoin.Prelude.{
  ℕ, zero, suc, ◌+◌, ◌-◌, ◌≤◌, ◌<◌, ◌≡◌, refl, sym, ap, true, false, Option, none, some, List, [],
  ◌∷◌, ◌++◌, arith, ltb, leb, length, take, Bool-cases, inl, inr, In, All,
}
use mathlib.Core.Path.{subst}
use belcoin.Codec.{Octets}
use belcoin.Raft.{Addr, Entry, Packet, append_entries}
use belcoin.Raft.Log.{
  drop, last_from, current_log_index, current_log_term, first_idx, get_entries, take_sized,
  get_entries_sized, get_prev_log_index_term,
}
use belcoin.Raft.Log.Laws.{IsLog, up_to, drop-below, prev_at, current-index}
use belcoin.Raft.Handle.{first_entry}

-- An entry, the term of the entry before it, and the leader that made it
pub record Fact : Type 0 where
  pub command : Octets
  pub idx : ℕ
  pub term : ℕ
  pub prev : ℕ
  pub author : Addr

abbrev pub Recorded : List Fact → ℕ → Entry → Type 0
Recorded book t e =
    (a : Addr) × In
      (record { command = e.command; idx = e.idx; term = e.term; prev = t; author = a }) book

-- Entries that follow an entry of term `t`
abbrev pub ChainFrom : List Fact → ℕ → List Entry → Type 0
ChainFrom book t [] = Unit
ChainFrom book t (e ∷ es) = Recorded book t e × ChainFrom book e.term es

abbrev pub Chain : List Fact → List Entry → Type 0
Chain book [] = ⊥
Chain book (e ∷ es) = (e ≡ first_entry) × ChainFrom book e.term es

-- A log that starts with the first entry
pub Chain-index :
    (book : List Fact) (log : List Entry)
    → IsLog log
    → Chain book log
    → (first_idx log ≡ 1) × (1 ≤ current_log_index log)
Chain-index book [] l c = elim c [ ]
Chain-index book (e ∷ es) l (first, c) =
    let one : e.idx ≡ 1 = ap (λ e. e.idx) first in
    (one, omega (arith, one, current-index (e ∷ es) l))

-- Entries that follow the entry that a message names
abbrev pub LinkedTo : List Fact → Option (ℕ × ℕ) → List Entry → Type 0
LinkedTo book none es = Unit
LinkedTo book (some (prev, t)) es = ChainFrom book t es

abbrev pub Linked : List Fact → Packet → Type 0
Linked book (append_entries term commit prev es) = LinkedTo book prev es
Linked book _ = Unit

abbrev pub Within : List Fact → List Fact → Type 0
Within book more = (f : Fact) → In f book → In f more

module _ (book more : List Fact) (sub : Within book more) where
  pub ChainFrom-more : (t : ℕ) (es : List Entry) → ChainFrom book t es → ChainFrom more t es
  ChainFrom-more t [] c = tt
  ChainFrom-more t (e ∷ es) ((a, i), c) = ((a, sub _ i), ChainFrom-more e.term es c)

  pub Chain-more : (log : List Entry) → Chain book log → Chain more log
  Chain-more [] c = elim c [ ]
  Chain-more (e ∷ es) (p, c) = (p, ChainFrom-more e.term es c)

  pub Linked-more : (p : Packet) → Linked book p → Linked more p
  Linked-more (append_entries term commit none es) l = tt
  Linked-more (append_entries term commit (some (prev, t)) es) l = ChainFrom-more t es l
  Linked-more (belcoin.Raft.request_vote a b c) l = tt
  Linked-more (belcoin.Raft.response_vote a) l = tt
  Linked-more (belcoin.Raft.append_data a b c d e) l = tt
  Linked-more (belcoin.Raft.append_dump a b c) l = tt
  Linked-more (belcoin.Raft.next_node_idx a b c) l = tt
  Linked-more (belcoin.Raft.command_request a b) l = tt
  Linked-more (belcoin.Raft.command_logged a b c) l = tt
  Linked-more (belcoin.Raft.command_failed a b) l = tt

  pub AllLinked-more :
      (sent : List (Addr × Packet))
      → All (λ (m : Addr × Packet). Linked book m.1) sent
      → All (λ (m : Addr × Packet). Linked more m.1) sent
  AllLinked-more [] l = tt
  AllLinked-more ((to, p) ∷ sent) (l, ls) = (Linked-more p l, AllLinked-more sent ls)

drop-nil : (k : ℕ) → ◌≡◌ {A = List Entry} (drop k []) []
drop-nil zero = refl
drop-nil (suc k) = refl

-- Adding an entry
pub index-add : (log : List Entry) (x : Entry) → current_log_index (log ++ (x ∷ [])) ≡ x.idx
index-add [] x = refl
index-add (e ∷ es) x = last e es
  where
    last : (e : Entry) (es : List Entry) → (last_from e (es ++ (x ∷ []))).idx ≡ x.idx
    last e [] = refl
    last e (y ∷ ys) = last y ys

module _ (book : List Fact) where
  ChainFrom-take_sized :
      (max total t : ℕ) (es : List Entry)
      → ChainFrom book t es
      → ChainFrom book t (take_sized max total es)
  unfolding take_sized
  ChainFrom-take_sized max total t [] c = tt
  ChainFrom-take_sized max total t (e ∷ es) (r, c) =
      let rest = ChainFrom-take_sized max (total + length e.command) e.term es c in
      elim (Bool-cases (leb max (total + length e.command))) [
        | inl full ↦ rw full (r, tt)
        | inr more ↦ rw more (r, rest)
      ]

  abbrev TailFrom : Entry → List Entry → List Entry → Type 0
  TailFrom e es [] = ⊥
  TailFrom e es (x ∷ xs) = ChainFrom book x.term xs

  pub after_drop :
      (k : ℕ) (e : Entry) (es : List Entry) (x : Entry) (xs : List Entry)
      → drop k (e ∷ es) ≡ x ∷ xs
      → ChainFrom book e.term es
      → ChainFrom book x.term xs
  after_drop zero e es x xs q c = subst (TailFrom e es) q c
  after_drop (suc k) e [] x xs q c = absurd (cc (q, drop-nil k))
  after_drop (suc k) e (y ∷ ys) x xs q (r, c) = after_drop k y ys x xs q c

  pub ChainFrom-append :
      (e : Entry) (es ys : List Entry)
      → ChainFrom book e.term es
      → ChainFrom book (last_from e es).term ys
      → ChainFrom book e.term (es ++ ys)
  ChainFrom-append e [] ys c d = d
  ChainFrom-append e (x ∷ xs) ys (r, c) d = (r, ChainFrom-append x xs ys c d)

  pub Chain-add :
      (log : List Entry) (x : Entry)
      → Recorded book (current_log_term log) x
      → Chain book log
      → Chain book (log ++ (x ∷ []))
  Chain-add [] x r c = elim c [ ]
  Chain-add (e ∷ es) x r (p, c) = (p, ChainFrom-append e es (x ∷ []) c (r, tt))

  abbrev head_term : List Entry → ℕ
  head_term [] = 0
  head_term (e ∷ es) = e.term

  -- Other entries in place of what follows an entry
  cut_after :
      (k : ℕ) (e : Entry) (es ys : List Entry) (x : Entry) (xs : List Entry)
      → drop k (e ∷ es) ≡ x ∷ xs
      → ChainFrom book e.term es
      → ChainFrom book x.term ys
      → ChainFrom book e.term (take k es ++ ys)
  cut_after zero e es ys x xs q c d =
      subst (λ t. ChainFrom book t ys) (sym (ap (λ l. head_term l) q)) d
  cut_after (suc k) e [] ys x xs q c d = absurd (cc (q, drop-nil k))
  cut_after (suc k) e (z ∷ zs) ys x xs q (r, c) d = (r, cut_after k z zs ys x xs q c d)

  pub Chain-cut :
      (prev : ℕ) (log ys : List Entry) (x : Entry) (xs : List Entry)
      → get_entries (some prev) log ≡ x ∷ xs
      → Chain book log
      → ChainFrom book x.term ys
      → Chain book (up_to prev log ++ ys)
  unfolding get_entries
  Chain-cut prev [] ys x xs q c d = elim c [ ]
  Chain-cut prev (e ∷ es) ys x xs q (p, c) d = elim (Bool-cases (ltb prev e.idx)) [
    | inl early ↦ absurd (nothing early)
    | inr there ↦
        let n : prev + 1 - e.idx ≡ suc (prev - e.idx) = ground arith in
        rw n (p, cut_after (prev - e.idx) e es ys x xs (got there) c d)
  ]
    where
      nothing : ltb prev e.idx ≡ true → ⊥
      nothing early = cc (rw early at q)

      got : ltb prev e.idx ≡ false → drop (prev - e.idx) (e ∷ es) ≡ x ∷ xs
      got there = rw there at q

  drop_next :
      (k : ℕ) (es : List Entry) (x : Entry) (xs : List Entry)
      → drop k es ≡ x ∷ xs
      → drop (suc k) es ≡ xs
  drop_next zero [] x xs q = cc
  drop_next zero (y ∷ ys) x xs q = cc
  drop_next (suc k) [] x xs q = cc
  drop_next (suc k) (y ∷ ys) x xs q = drop_next k ys x xs q

  -- What is sent from a place on follows what it is sent after.
  pub sent-LinkedTo :
      (next max : ℕ) (log : List Entry)
      → IsLog log
      → first_idx log < next
      → next ≤ current_log_index log
      → Chain book log
      → LinkedTo book (get_prev_log_index_term next log) (get_entries_sized next max log)
  unfolding get_entries_sized get_entries
  sent-LinkedTo next max [] h after last c = elim h [ ]
  sent-LinkedTo next max (e ∷ es) h after last (p, c) =
      let log = e ∷ es in
      let (x, xs, q) = drop-below (next - 1 - e.idx) log (omega (arith, current-index log h)) in
      let there : ltb (next - 1) e.idx ≡ false = ground arith in
      let here : ltb next e.idx ≡ false = ground arith in
      let n : next - e.idx ≡ suc (next - 1 - e.idx) = omega arith in
      rw (prev_at next log x xs there q) (
        rw (here, get_entries_sized, n, drop_next (next - 1 - e.idx) log x xs q)
          (ChainFrom-take_sized max 0 x.term xs (after_drop (next - 1 - e.idx) e es x xs q c)))
