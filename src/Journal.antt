-- ===== src/Journal.antt =====
-- The journal file of the Raft library (pysyncobjbc/journal.py, `ResizableFile`, `FileJournal`):
-- records of a size, a place, a term, a command and the size again, after a header of 40 bytes whose
-- last four say where the records end. The names and versions in the header are not modelled.
pub mod Bytes
pub mod Records
pub mod Reload
use belcoin.Prelude.{
  ℕ, zero, suc, ◌+◌, ◌*◌, ◌-◌, ◌/◌, ◌%◌, Bool, true, false, Option, none, some, List, [], ◌∷◌, ◌++◌,
  ltb, leb, ◌==◌, if◌then◌else◌, length, take,
}
use belcoin.Exec.{Exec, pure, raise, gets, or_raise, modify, ◌>>=◌, ◌>>◌, struct_error, index_error}
use belcoin.Codec.{Octets}
use belcoin.Raft.{Entry}
use belcoin.Raft.Log.{drop}

-- `struct.pack` of a number in `k` bytes, the lowest first, and `struct.unpack`
abbrev pub le : ℕ → ℕ → Octets
le zero n = []
le (suc k) n = (n % 256) ∷ le k (n / 256)

abbrev pub fits : ℕ → ℕ → Bool
fits zero n = n == 0
fits (suc k) n = fits k (n / 256)

abbrev pub pack : ℕ → ℕ → Option Octets
pack k n = if fits k n then some (le k n) else none

abbrev pub number : Octets → ℕ
number [] = 0
number (b ∷ bs) = b + 256 * number bs

abbrev pub unpack : ℕ → Octets → Option ℕ
unpack k bytes = if length bytes == k then some (number bytes) else none

-- A file in memory: past its size there are zeros, which it has when it grows.
pub record ResizableFile : Type 0 where
  pub bytes : ℕ → ℕ
  pub size : ℕ

abbrev pub put_at : (ℕ → ℕ) → ℕ → Octets → ℕ → ℕ
put_at f offset [] i = f i
put_at f offset (v ∷ vs) i =
    let rest = put_at f (suc offset) vs i in if i == offset then v else rest

abbrev pub read_at : (ℕ → ℕ) → ℕ → ℕ → Octets
read_at f offset zero = []
read_at f offset (suc n) = f offset ∷ read_at f (suc offset) n

-- `self.__mm[offset:offset + size]`, which ends with the file
abbrev pub read : ResizableFile → ℕ → ℕ → Octets
read f offset n = read_at f.bytes offset (if leb (offset + n) f.size then n else f.size - offset)

abbrev pub grown_size : ℕ → ℕ → ℕ
grown_size end size = if ltb size end then 2 * size else size

pub record FileJournal : Type 0 where
  pub journal_file : ResizableFile
  pub journal : List Entry
  pub current_offset : ℕ

-- A write past the end doubles the file once; a slice that is still too short is an error.
unfoldable pub write : ℕ → Octets → Exec FileJournal (Unit {0})
write offset values = do
  s ← gets λ s. s
  let size = grown_size (offset + length values) s.journal_file.size
  modify λ s. record s { journal_file = record { bytes = s.journal_file.bytes; size = size } }
  if ltb size (offset + length values)
      then raise index_error
      else modify (λ s. record s {
        journal_file = record { bytes = put_at s.journal_file.bytes offset values; size = size };
      })

abbrev pub first_record_offset : ℕ
first_record_offset = 40

abbrev pub last_record_offset_offset : ℕ
last_record_offset_offset = 36

unfoldable pub set_last_record_offset : ℕ → Exec FileJournal (Unit {0})
unfolding write
set_last_record_offset offset =
    or_raise (pack 4 offset) struct_error >>= write last_record_offset_offset

unfoldable pub add : Octets → ℕ → ℕ → Exec FileJournal (Unit {0})
unfolding write set_last_record_offset
add command idx term = do
  modify λ s. record s {
    journal = s.journal ++ (record { command = command; idx = idx; term = term } ∷ []);
  }
  place ← or_raise (pack 8 idx) struct_error
  times ← or_raise (pack 8 term) struct_error
  let data_ = place ++ (times ++ command)
  size ← or_raise (pack 4 (length data_)) struct_error
  offset ← gets λ s. s.current_offset
  write offset (size ++ (data_ ++ size))
  modify λ s. record s { current_offset = s.current_offset + length (size ++ (data_ ++ size)) }
  end ← gets λ s. s.current_offset
  set_last_record_offset end

abbrev pub on_some : {A B : Type 0} → Option A → (A → Option B) → Option B
on_some none f = none
on_some (some a) f = f a

-- What `struct.unpack` makes of the data of a record
abbrev pub entry_in : Octets → Option Entry
entry_in data_ = on_some (unpack 8 (take 8 data_)) (λ idx.
    on_some (unpack 8 (take 8 (drop 8 data_)))
      (λ term. some (record { command = drop 16 data_; idx = idx; term = term })))

-- The loop of `__init__`. A record takes eight bytes at least, so as many rounds as the records have
-- bytes are enough.
unfoldable pub load_from : ℕ → ResizableFile → ℕ → ℕ → Option (List Entry × ℕ)
load_from zero f offset last = some ([], offset)
load_from (suc fuel) f offset last = elim (ltb offset last) [
  | false ↦ some ([], offset)
  | true ↦ on_some (unpack 4 (read f offset 4)) (λ size.
      on_some (entry_in (read f (offset + 4) size)) (λ e.
        on_some (load_from fuel f (offset + (size + 8)) last) (λ rest. some (e ∷ rest.0, rest.1))))
]

unfoldable pub load : ResizableFile → Option FileJournal
unfolding load_from
load f = on_some (unpack 4 (read f last_record_offset_offset 4)) (λ last.
    on_some (load_from last f first_record_offset last)
      (λ got. some (record { journal_file = f; journal = got.0; current_offset = got.1 })))

-- `__init__` of `ResizableFile` and of `FileJournal` for a file that does not exist yet
unfoldable pub new_file : ResizableFile
new_file = record {
  bytes = put_at (λ i. 0) last_record_offset_offset (le 4 first_record_offset);
  size = 1024;
}

-- `clear`
unfoldable pub clear : Exec FileJournal (Unit {0})
unfolding set_last_record_offset
clear = do
  modify λ s. record s { journal = [] }
  set_last_record_offset first_record_offset
  modify λ s. record s { current_offset = first_record_offset }

-- `for entry in journal: self.add(*entry)`
unfoldable pub add_all : List Entry → Exec FileJournal (Unit {0})
unfolding add
add_all [] = pure tt
add_all (e ∷ es) = add e.command e.idx e.term >> add_all es

unfoldable pub delete_entries_to : ℕ → Exec FileJournal (Unit {0})
unfolding clear add_all
delete_entries_to entry_to = do kept ← gets λ s. drop entry_to s.journal; clear; add_all kept
