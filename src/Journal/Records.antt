-- ===== src/Journal/Records.antt =====
-- The records of a journal file.
use belcoin.Prelude.{
  ℕ, zero, suc, ◌+◌, ◌≤◌, ◌<◌, ◌≡◌, refl, sym, ap, ◌∙◌, true, false, some, List, [], ◌∷◌, ◌++◌, ltb,
  length, arith, length-append,
}
use mathlib.Core.Path.{subst}
use belcoin.Codec.{Octets}
use belcoin.Raft.{Entry}
use belcoin.Journal.{le, fits, unpack, ResizableFile, read, entry_in, load_from, on_some}
use belcoin.Journal.Bytes.{unpack-le, read_at-same, Stands-left, Stands-right, Stands}

-- The data of a record, and the record
abbrev pub data_of : Entry → Octets
data_of e = le 8 e.idx ++ (le 8 e.term ++ e.command)

abbrev pub record_of : Entry → Octets
record_of e = let size = le 4 (length (data_of e)) in size ++ (data_of e ++ size)

-- The numbers of an entry fit into their bytes.
pub record IsSized (e : Entry) : Type 0 where
  pub place : fits 8 e.idx ≡ true
  pub times : fits 8 e.term ≡ true
  pub size : fits 4 (length (data_of e)) ≡ true

entry_in-data_of : (e : Entry) → IsSized e → entry_in (data_of e) ≡ some e
entry_in-data_of e h =
    ap
      (λ o. on_some o (λ idx.
        on_some (unpack 8 (le 8 e.term))
          (λ term. some (record { command = e.command; idx = idx; term = term }))))
      (unpack-le 8 e.idx h.place)
    ∙ ap (λ o. on_some o (λ term. some (record { command = e.command; idx = e.idx; term = term })))
        (unpack-le 8 e.term h.times)

length-record_of : (e : Entry) → length (record_of e) ≡ length (data_of e) + 8
length-record_of e = omega (arith, length-append (data_of e) (le 4 (length (data_of e))))

-- The records of entries stand one after the other from an offset to an end.
abbrev pub Stored : (ℕ → ℕ) → ℕ → List Entry → ℕ → Type 0
Stored f o [] end = o ≡ end
Stored f o (e ∷ es) end =
    IsSized e × Stands f o (record_of e) × Stored f (o + length (record_of e)) es end

pub Stored-le : (f : ℕ → ℕ) (o : ℕ) (es : List Entry) (end : ℕ) → Stored f o es end → o ≤ end
Stored-le f o [] end h = omega (arith, h)
Stored-le f o (e ∷ es) end (z, s, h) =
    omega (arith, Stored-le f (o + length (record_of e)) es end h)

pub Stored-same :
    (f g : ℕ → ℕ) (o : ℕ) (es : List Entry) (end : ℕ)
    → ((i : ℕ) → o ≤ i → i < end → f i ≡ g i)
    → Stored f o es end
    → Stored g o es end
Stored-same f g o [] end same h = h
Stored-same f g o (e ∷ es) end same (z, s, h) =
    let le = Stored-le f (o + length (record_of e)) es end h in
    (
      z,
      sym (read_at-same f g o (length (record_of e)) (λ i a b. same i a (omega arith))) ∙ s,
      Stored-same f g (o + length (record_of e)) es end (λ i a b. same i (omega arith) b) h,
    )

pub Stored-append :
    (f : ℕ → ℕ) (o : ℕ) (es : List Entry) (mid : ℕ) (e : Entry)
    → Stored f o es mid
    → IsSized e
    → Stands f mid (record_of e)
    → Stored f o (es ++ (e ∷ [])) (mid + length (record_of e))
Stored-append f o [] mid e q z s =
    subst (λ k. Stored f k (e ∷ []) (mid + length (record_of e))) (sym q) (z, s, refl)
Stored-append f o (x ∷ xs) mid e (z', s', h) z s =
    (z', s', Stored-append f (o + length (record_of x)) xs mid e h z s)

pub read-inside :
    (F : ResizableFile) (o : ℕ) (xs : Octets)
    → Stands F.bytes o xs
    → o + length xs ≤ F.size
    → read F o (length xs) ≡ xs
read-inside F o xs s le = ground (arith, s)

pub load_from-Stored :
    (F : ResizableFile) (fuel o : ℕ) (es : List Entry) (end : ℕ)
    → Stored F.bytes o es end
    → end ≤ F.size
    → end ≤ o + fuel
    → load_from fuel F o end ≡ some (es, end)
unfolding load_from
load_from-Stored F zero o [] end h inside enough = ap (λ k. some ([], k)) h
load_from-Stored F zero o (e ∷ es) end (z, s, h) inside enough =
    absurd
      (omega (arith, Stored-le F.bytes (o + length (record_of e)) es end h, length-record_of e))
load_from-Stored F (suc fuel) o [] end h inside enough =
    let stop : ltb o end ≡ false = ground (arith, h) in
    rw (stop, load_from) (ap (λ k. some ([], k)) h)
load_from-Stored F (suc fuel) o (e ∷ es) end (z, s, h) inside enough =
    let le_end = Stored-le F.bytes (o + length (record_of e)) es end h in
    let len = length-record_of e in
    let n = length (data_of e) in
    let go : ltb o end ≡ true = ground arith in
    let size = le 4 n in
    let right = Stands-right F.bytes o size (data_of e ++ size) s in
    let one : read F o 4 ≡ size =
      read-inside F o size (Stands-left F.bytes o size (data_of e ++ size) s) (omega arith) in
    let two : read F (o + 4) n ≡ data_of e =
      read-inside F (o + 4) (data_of e) (Stands-left F.bytes (o + 4) (data_of e) size right)
        (omega arith) in
    let rest = load_from-Stored F fuel (o + length (record_of e)) es end h inside (omega arith) in
    rw (go, load_from)
      (ap
          (λ b. on_some (unpack 4 b) (λ size.
            on_some (entry_in (read F (o + 4) size))
              (λ x. on_some (load_from fuel F (o + (size + 8)) end) (λ r. some (x ∷ r.0, r.1)))))
          one
        ∙ (ap
              (λ u. on_some u (λ size.
                on_some (entry_in (read F (o + 4) size)) (λ x.
                  on_some (load_from fuel F (o + (size + 8)) end) (λ r. some (x ∷ r.0, r.1)))))
              (unpack-le 4 n z.size)
            ∙ (ap
                  (λ b.
                    on_some (entry_in b) (λ x.
                      on_some (load_from fuel F (o + (n + 8)) end) (λ r. some (x ∷ r.0, r.1))))
                  two
                ∙ (ap
                      (λ u. on_some u (λ x.
                        on_some (load_from fuel F (o + (n + 8)) end) (λ r. some (x ∷ r.0, r.1))))
                      (entry_in-data_of e z)
                    ∙ (ap (λ k. on_some (load_from fuel F (o + k) end) (λ r. some (e ∷ r.0, r.1)))
                          (sym len)
                        ∙ ap (λ u. on_some u (λ r. some (e ∷ r.0, r.1))) rest)))))
