-- ===== src/Journal/Reload.antt =====
-- What a journal file gives when it is read again.
use belcoin.Prelude.{
  ℕ, ◌+◌, ◌≤◌, ◌≡◌, refl, sym, ap, ◌∙◌, true, false, some, [], ◌∷◌, ◌++◌, ltb, length, arith,
}
use belcoin.Exec.{Exec, ok, gets, modify, ◌>>=◌, ◌>>◌}
use belcoin.Raft.Sound.Accept.{after}
use belcoin.Codec.{Octets}
use belcoin.Raft.{Entry}
use belcoin.Journal.{
  le, fits, unpack, put_at, grown_size, FileJournal, write, first_record_offset,
  last_record_offset_offset, set_last_record_offset, add, load_from, load, on_some, new_file,
}
use belcoin.Journal.Bytes.{unpack-le, read_at-same, Stands, put-before, put-after, read-put}
use belcoin.Journal.Records.{
  record_of, IsSized, Stored, Stored-le, Stored-same, Stored-append, read-inside, load_from-Stored,
}

-- The file holds the entries of the list.
pub record IsStored (s : FileJournal) : Type 0 where
  pub stored : Stored s.journal_file.bytes first_record_offset s.journal s.current_offset
  pub marked : Stands s.journal_file.bytes last_record_offset_offset (le 4 s.current_offset)
  pub counted : fits 4 s.current_offset ≡ true
  pub inside : s.current_offset ≤ s.journal_file.size

load-IsStored : (s : FileJournal) → IsStored s → load s.journal_file ≡ some s
unfolding load
load-IsStored s h =
    let F = s.journal_file in
    let le_end = Stored-le F.bytes first_record_offset s.journal s.current_offset h.stored in
    let found =
      load_from-Stored F s.current_offset first_record_offset s.journal s.current_offset h.stored
        h.inside (omega arith) in
    let mark =
      read-inside F last_record_offset_offset (le 4 s.current_offset) h.marked
        (omega (arith, h.inside)) in
    ap
      (λ b. on_some (unpack 4 b) (λ last.
        on_some (load_from last F first_record_offset last)
          (λ got. some (record { journal_file = F; journal = got.0; current_offset = got.1 }))))
      mark
    ∙ (ap
          (λ u. on_some u (λ last.
            on_some (load_from last F first_record_offset last)
              (λ got. some (record { journal_file = F; journal = got.0; current_offset = got.1 }))))
          (unpack-le 4 s.current_offset h.counted)
        ∙ ap
            (λ u.
              on_some u (λ got.
                some (record { journal_file = F; journal = got.0; current_offset = got.1 })))
            found)

-- The state after an entry has been written
added : Entry → FileJournal → FileJournal
added e s =
    let end = s.current_offset + length (record_of e) in
    record {
      journal_file = record {
        bytes =
            put_at (put_at s.journal_file.bytes s.current_offset (record_of e))
              last_record_offset_offset (le 4 end);
        size = grown_size end s.journal_file.size;
      };
      journal = s.journal ++ (e ∷ []);
      current_offset = end;
    }

write-fits :
    (offset : ℕ) (values : Octets) (s : FileJournal)
    → offset + length values ≤ grown_size (offset + length values) s.journal_file.size
    → write offset values s ≡ (
      ok tt,
      record s {
        journal_file = record {
          bytes = put_at s.journal_file.bytes offset values;
          size = grown_size (offset + length values) s.journal_file.size;
        };
      },
    )
unfolding write
write-fits offset values s room =
    let enough : ltb (grown_size (offset + length values) s.journal_file.size)
          (offset + length values)
        ≡ false =
      ground arith in
    rw (enough, write) refl

mark-fits :
    (offset : ℕ) (s : FileJournal)
    → fits 4 offset ≡ true
    → first_record_offset ≤ s.journal_file.size
    → set_last_record_offset offset s ≡ (
      ok tt,
      record s {
        journal_file = record {
          bytes = put_at s.journal_file.bytes last_record_offset_offset (le 4 offset);
          size = s.journal_file.size;
        };
      },
    )
unfolding set_last_record_offset
mark-fits offset s small large =
    let same : grown_size (last_record_offset_offset + length (le 4 offset)) s.journal_file.size
        ≡ s.journal_file.size =
      ground arith in
    rw (small, set_last_record_offset)
      (write-fits last_record_offset_offset (le 4 offset) s (omega (arith, same))
        ∙ ap
            (λ size. (
              ok tt,
              record s {
                journal_file = record {
                  bytes = put_at s.journal_file.bytes last_record_offset_offset (le 4 offset);
                  size = size;
                };
              },
            ))
            same)

added-IsStored :
    (e : Entry) (s : FileJournal)
    → IsSized e
    → fits 4 (s.current_offset + length (record_of e)) ≡ true
    → s.current_offset + length (record_of e)
      ≤ grown_size (s.current_offset + length (record_of e)) s.journal_file.size
    → IsStored s
    → IsStored (added e s)
unfolding added
added-IsStored e s z small room h =
    let f = s.journal_file.bytes in
    let o = s.current_offset in
    let end = o + length (record_of e) in
    let f1 = put_at f o (record_of e) in
    let f2 = put_at f1 last_record_offset_offset (le 4 end) in
    let after = Stored-le f first_record_offset s.journal o h.stored in
    let beyond : (i : ℕ) → first_record_offset ≤ i → f2 i ≡ f1 i =
      λ i a. put-after f1 last_record_offset_offset (le 4 end) i (omega arith) in
    record {
      stored =
          Stored-append f2 first_record_offset s.journal o e
            (Stored-same f f2 first_record_offset s.journal o
              (λ i a b. sym (beyond i a ∙ put-before f o (record_of e) i b)) h.stored)
            z
            (read_at-same f2 f1 o (length (record_of e)) (λ i a b. beyond i (omega arith))
              ∙ read-put f o (record_of e));
      marked = read-put f1 last_record_offset_offset (le 4 end);
      counted = small;
      inside = room;
    }

add_lem :
    (e : Entry) (s : FileJournal)
    → IsSized e
    → fits 4 (s.current_offset + length (record_of e)) ≡ true
    → s.current_offset + length (record_of e)
      ≤ grown_size (s.current_offset + length (record_of e)) s.journal_file.size
    → first_record_offset ≤ s.current_offset
    → add e.command e.idx e.term s ≡ (ok tt, added e s)
unfolding add added
add_lem e s z small room large =
    rw (z.place, add)
      (rw (z.times, add)
        (rw (z.size, add)
          (ap (λ r. after r (λ _. end_at))
              (write-fits s.current_offset (record_of e) (listed s) room)
            ∙ mark-fits (s.current_offset + length (record_of e)) _ small (omega arith))))
  where
    listed : FileJournal → FileJournal
    listed s = record s { journal = s.journal ++ (e ∷ []) }

    end_at : Exec FileJournal (Unit {0})
    end_at =
        modify (λ s. record s { current_offset = s.current_offset + length (record_of e) })
        >> (gets (λ s. s.current_offset) >>= set_last_record_offset)

-- Adding an entry to a journal whose file holds its list returns, and reading the file again gives the
-- journal back, with the entry behind the others; the new journal's file holds its list as well. The
-- entry's numbers and the end of the records fit into their bytes, and the file has room for the
-- record when it is doubled at most once.
pub load-add :
    (e : Entry) (s : FileJournal)
    → IsStored s
    → IsSized e
    → fits 4 (s.current_offset + length (record_of e)) ≡ true
    → s.current_offset + length (record_of e)
      ≤ grown_size (s.current_offset + length (record_of e)) s.journal_file.size
    → (s' : FileJournal) × (add e.command e.idx e.term s ≡ (ok tt, s'))
      × (load s'.journal_file ≡ some s')
      × (s'.journal ≡ s.journal ++ (e ∷ []))
      × IsStored s'
unfolding added
load-add e s h z small room =
    let g = added-IsStored e s z small room h in
    (
      added e s,
      add_lem e s z small room
          (Stored-le s.journal_file.bytes first_record_offset s.journal s.current_offset h.stored),
      load-IsStored (added e s) g,
      refl,
      g,
    )

-- A file that did not exist
pub new-IsStored :
    IsStored
      (record { journal_file = new_file; journal = []; current_offset = first_record_offset })
unfolding new_file
new-IsStored = record { stored = refl; marked = refl; counted = refl; inside = omega arith }
