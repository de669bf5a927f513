-- ===== src/Raft/Log/Laws.antt =====
-- Logs in which the entries stand at consecutive places.
use belcoin.Prelude.{
  ℕ, zero, suc, ◌+◌, ◌-◌, ◌≤◌, ◌<◌, ◌≡◌, refl, Bool, true, false, some, List, [], ◌∷◌, ◌++◌, arith,
  ltb, leb, ◌==◌, length, take, Bool-cases, inl, inr,
}
use mathlib.Core.Path.{subst}
use belcoin.Codec.{Octets}
use belcoin.Raft.{Entry, membership}
use belcoin.Raft.Log.{
  drop, last_from, current_log_index, first_idx, get_entries, take_sized, get_entries_sized,
  get_entries_count, delete_entries_from, get_prev_log_index_term,
}

-- Whether a command may change the cluster when it stands in a log: it cannot be read, or it says so.
abbrev pub is_change : Octets → Bool
is_change [] = true
is_change (kind ∷ payload) = kind == membership

-- Entries at the places from `i` on, none of which changes the cluster
abbrev pub Run : ℕ → List Entry → Type 0
Run i [] = Unit
Run i (e ∷ es) = (e.idx ≡ i) × (is_change e.command ≡ false) × Run (suc i) es

-- A log with an entry at least
abbrev pub IsLog : List Entry → Type 0
IsLog [] = ⊥
IsLog (e ∷ es) = Run e.idx (e ∷ es)

pub Run-drop : (n i : ℕ) (es : List Entry) → Run i es → Run (i + n) (drop n es)
Run-drop zero i es h = subst (λ k. Run k es) (omega arith) h
Run-drop (suc n) i [] h = tt
Run-drop (suc n) i (e ∷ es) (p, q, h) =
    subst (λ k. Run k (drop n es)) (omega arith) (Run-drop n (suc i) es h)

pub Run-take : (n i : ℕ) (es : List Entry) → Run i es → Run i (take n es)
Run-take zero i es h = tt
Run-take (suc n) i [] h = tt
Run-take (suc n) i (e ∷ es) (p, q, h) = (p, q, Run-take n (suc i) es h)

pub Run-take_sized :
    (max total i : ℕ) (es : List Entry) → Run i es → Run i (take_sized max total es)
unfolding take_sized
Run-take_sized max total i [] h = tt
Run-take_sized max total i (e ∷ es) (p, q, h) =
    let rest = Run-take_sized max (total + length e.command) (suc i) es h in
    elim (Bool-cases (leb max (total + length e.command))) [
      | inl full ↦ rw full (p, q, tt)
      | inr more ↦ rw more (p, q, rest)
    ]

pub Run-append : (i : ℕ) (xs ys : List Entry) → Run i xs → Run (i + length xs) ys → Run i (xs ++ ys)
Run-append i [] ys h k = subst (λ j. Run j ys) (omega arith) k
Run-append i (x ∷ xs) ys (p, q, h) k =
    (p, q, Run-append (suc i) xs ys h (subst (λ j. Run j ys) (omega arith) k))

last_from-idx :
    (i : ℕ) (e : Entry) (es : List Entry) → Run i (e ∷ es) → (last_from e es).idx ≡ i + length es
last_from-idx i e [] (p, q, h) = omega arith
last_from-idx i e (x ∷ xs) (p, q, h) = omega (arith, last_from-idx (suc i) x xs h)

-- The last place, from the first one and the length.
pub current-index :
    (log : List Entry) → IsLog log → current_log_index log + 1 ≡ first_idx log + length log
current-index [] h = elim h [ ]
current-index (e ∷ es) h = omega (arith, last_from-idx e.idx e es h)

pub IsLog-append :
    (log es : List Entry) → IsLog log → Run (current_log_index log + 1) es → IsLog (log ++ es)
IsLog-append [] es h k = elim h [ ]
IsLog-append (e ∷ log) es h k =
    Run-append e.idx (e ∷ log) es h (subst (λ j. Run j es) (current-index (e ∷ log) h) k)

pub first-append : (log es : List Entry) → IsLog log → first_idx (log ++ es) ≡ first_idx log
first-append [] es h = elim h [ ]
first-append (e ∷ log) es h = refl

-- The entries from a place on stand there.
pub get_entries-Run :
    (from : ℕ) (log : List Entry) → IsLog log → Run from (get_entries (some from) log)
unfolding get_entries
get_entries-Run from [] h = elim h [ ]
get_entries-Run from (e ∷ es) h = elim (Bool-cases (ltb from e.idx)) [
  | inl early ↦ rw early tt
  | inr there ↦ rw there (
      subst (λ j. Run j (drop (from - e.idx) (e ∷ es))) (ground arith)
        (Run-drop (from - e.idx) e.idx (e ∷ es) h))
]

pub get_entries_sized-Run :
    (from max : ℕ) (log : List Entry) → IsLog log → Run from (get_entries_sized from max log)
unfolding get_entries_sized
get_entries_sized-Run from max log h =
    Run-take_sized max 0 from (get_entries (some from) log) (get_entries-Run from log h)

drop-some :
    (n : ℕ) (es : List Entry) (x : Entry) (xs : List Entry) → drop n es ≡ x ∷ xs → n < length es
drop-some zero [] x xs e = cc
drop-some zero (y ∷ es) x xs e = omega arith
drop-some (suc n) [] x xs e = cc
drop-some (suc n) (y ∷ es) x xs e = omega (arith, drop-some n es x xs e)

drop-last : (n : ℕ) (es : List Entry) (x : Entry) → drop n es ≡ x ∷ [] → take (n + 1) es ≡ es
drop-last zero [] x e = cc
drop-last zero (y ∷ []) x e = refl
drop-last zero (y ∷ z ∷ es) x e = cc
drop-last (suc n) [] x e = cc
drop-last (suc n) (y ∷ es) x e = ground (arith, drop-last n es x e)

pub length-take : {A : Type 0} (n : ℕ) (es : List A) → n ≤ length es → length (take n es) ≡ n
length-take zero es h = refl
length-take (suc n) [] h = absurd (omega arith)
length-take (suc n) (e ∷ es) h = omega (arith, length-take n es (omega arith))

pub length-drop : {A : Type 0} (n : ℕ) (es : List A) → length (drop n es) ≡ length es - n
length-drop zero es = omega arith
length-drop (suc n) [] = omega arith
length-drop (suc n) (e ∷ es) = omega (arith, length-drop n es)

-- The part of a log up to a place
abbrev pub up_to : ℕ → List Entry → List Entry
up_to place log = take (place + 1 - first_idx log) log

-- An entry was found at a place: it lies in the log, and the log that is cut after it ends there.
pub record IsFound (prev : ℕ) (log : List Entry) : Type 0 where
  pub after_first : first_idx log ≤ prev
  pub within : prev ≤ current_log_index log

pub get_entries-IsFound :
    (prev : ℕ) (log : List Entry) (x : Entry) (xs : List Entry)
    → IsLog log
    → get_entries (some prev) log ≡ x ∷ xs
    → IsFound prev log
unfolding get_entries
get_entries-IsFound prev log x xs h e = elim (Bool-cases (ltb prev (first_idx log))) [
  | inl early ↦ absurd (nothing early)
  | inr there ↦
      let n = drop-some (prev - first_idx log) log x xs (got there) in
      record { after_first = ground arith; within = ground (arith, current-index log h) }
]
  where
    nothing : ltb prev (first_idx log) ≡ true → ⊥
    nothing early = cc (rw early at e)

    got : ltb prev (first_idx log) ≡ false → drop (prev - first_idx log) log ≡ x ∷ xs
    got there = rw there at e

pub up_to-last :
    (prev : ℕ) (log : List Entry) (x : Entry)
    → get_entries (some prev) log ≡ x ∷ []
    → IsFound prev log
    → up_to prev log ≡ log
unfolding get_entries
up_to-last prev log x e f =
    rw (places) (drop-last (prev - first_idx log) log x (got (ground arith)))
  where
    places : prev + 1 - first_idx log ≡ prev - first_idx log + 1
    places = omega (arith, f.after_first)

    got : ltb prev (first_idx log) ≡ false → drop (prev - first_idx log) log ≡ x ∷ []
    got there = rw there at e

pub delete-up_to :
    (prev : ℕ) (log : List Entry)
    → IsFound prev log
    → delete_entries_from (prev + 1) log ≡ up_to prev log
unfolding delete_entries_from
delete-up_to prev log f = ground (arith, f.after_first)

pub up_to-IsLog :
    (prev : ℕ) (log : List Entry) → IsLog log → IsFound prev log → IsLog (up_to prev log)
up_to-IsLog prev [] h f = elim h [ ]
up_to-IsLog prev (e ∷ log) h f =
    let n : prev + 1 - e.idx ≡ suc (prev - e.idx) = omega (arith, f.after_first) in
    rw n (Run-take (suc (prev - e.idx)) e.idx (e ∷ log) h)

pub up_to-index :
    (prev : ℕ) (log : List Entry)
    → IsLog log
    → IsFound prev log
    → current_log_index (up_to prev log) ≡ prev
up_to-index prev log h f = omega (
  arith,
  current-index (up_to prev log) (up_to-IsLog prev log h f),
  current-index log h,
  length-take (prev + 1 - first_idx log) log (omega (arith, current-index log h, f.within)),
  firsts prev log h f,
  f.after_first,
)
  where
    firsts : (p : ℕ) (l : List Entry) → IsLog l → IsFound p l → first_idx (up_to p l) ≡ first_idx l
    firsts p [] k g = elim k [ ]
    firsts p (y ∷ l) k g =
        let n : p + 1 - y.idx ≡ suc (p - y.idx) = omega (arith, g.after_first) in rw n refl

pub drop-below :
    (n : ℕ) (es : List Entry)
    → n < length es
    → (x : Entry) × (xs : List Entry) × (drop n es ≡ x ∷ xs)
drop-below zero [] h = absurd (omega arith)
drop-below zero (y ∷ es) h = (y, es, refl)
drop-below (suc n) [] h = absurd (omega arith)
drop-below (suc n) (y ∷ es) h = drop-below n es (omega arith)

pub prev_at :
    (next : ℕ) (log : List Entry) (x : Entry) (xs : List Entry)
    → ltb (next - 1) (first_idx log) ≡ false
    → drop (next - 1 - first_idx log) log ≡ x ∷ xs
    → get_prev_log_index_term next log ≡ some (next - 1, x.term)
unfolding get_prev_log_index_term get_entries_count get_entries
prev_at next log x xs there e =
    rw (there, get_prev_log_index_term) (rw (e, get_prev_log_index_term) refl)

-- Before a place in a log, other than the first, stands an entry.
pub prev_found :
    (next : ℕ) (log : List Entry)
    → IsLog log
    → first_idx log < next
    → next ≤ current_log_index log
    → (t : ℕ) × (get_prev_log_index_term next log ≡ some (next - 1, t))
prev_found next log h after last =
    let (x, xs, e) =
      drop-below (next - 1 - first_idx log) log (omega (arith, current-index log h)) in
    (x.term, prev_at next log x xs (ground arith) e)
