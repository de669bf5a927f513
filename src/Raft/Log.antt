-- ===== src/Raft/Log.antt =====
-- The entries of the log (pysyncobjbc/syncobj.py, `__getCurrentLogIndex` to `__getEntries` and
-- `__deleteEntriesFrom`). The log is never empty: `__init__` and `__loadDumpFile` add an entry, and
-- `Follow` deletes from the second on at most; so the results for `[]` are never used.
pub mod Laws
pub mod Chain
use belcoin.Prelude.{
  ℕ, zero, suc, ◌+◌, ◌-◌, ◌≡◌, Option, none, some, List, [], ◌∷◌, ltb, leb, if◌then◌else◌, length,
  take,
}
use belcoin.Raft.{Entry}

-- `xs[n:]`
abbrev pub drop {ℓ} : {A : Type ℓ} → ℕ → List A → List A
drop zero xs = xs
drop (suc n) [] = []
drop (suc n) (x ∷ xs) = drop n xs

abbrev pub last_from : Entry → List Entry → Entry
last_from e [] = e
last_from e (x ∷ xs) = last_from x xs

-- `self.__raftLog[-1][1]` and `[2]`, `self.__raftLog[0][1]`
abbrev pub current_log_index : List Entry → ℕ
current_log_index [] = 0
current_log_index (e ∷ es) = (last_from e es).idx

abbrev pub current_log_term : List Entry → ℕ
current_log_term [] = 0
current_log_term (e ∷ es) = (last_from e es).term

abbrev pub first_idx : List Entry → ℕ
first_idx [] = 0
first_idx (e ∷ es) = e.idx

-- `__getEntries(fromIDx)`, `__getEntries(fromIDx, count)`, `__getEntries(fromIDx, None, maxSizeBytes)`
unfoldable pub get_entries : Option ℕ → List Entry → List Entry
get_entries none log = []
get_entries (some from) log =
    if ltb from (first_idx log) then [] else drop (from - first_idx log) log

unfoldable pub get_entries_count : ℕ → ℕ → List Entry → List Entry
unfolding get_entries
get_entries_count from count log = take count (get_entries (some from) log)

unfoldable pub take_sized : ℕ → ℕ → List Entry → List Entry
take_sized max total [] = []
take_sized max total (e ∷ es) =
    let size = total + length e.command in
    let rest = take_sized max size es in e ∷ (if leb max size then [] else rest)

unfoldable pub get_entries_sized : ℕ → ℕ → List Entry → List Entry
unfolding get_entries take_sized
get_entries_sized from max log = take_sized max 0 (get_entries (some from) log)

-- `entries[0][2]` if there are entries
abbrev pub term_of : List Entry → Option ℕ
term_of [] = none
term_of (e ∷ es) = some e.term

unfoldable pub get_prev_log_index_term : ℕ → List Entry → Option (ℕ × ℕ)
unfolding get_entries_count
get_prev_log_index_term next log = elim (term_of (get_entries_count (next - 1) 1 log)) [
  | none ↦ none
  | some term ↦ some (next - 1, term)
]

unfoldable pub delete_entries_from : ℕ → List Entry → List Entry
delete_entries_from from log =
    if ltb from (first_idx log) then log else take (from - first_idx log) log
