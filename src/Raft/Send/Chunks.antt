-- ===== src/Raft/Send/Chunks.antt =====
-- Large entries that are sent in pieces.
use belcoin.Prelude.{
  ℕ, zero, suc, ◌+◌, ◌-◌, ◌*◌, ◌≤◌, ◌<◌, ◌≡◌, refl, ap, ◌∙◌, none, some, List, [], ◌∷◌, ◌++◌, leb,
  arith, length, take, Bool-cases, inl, inr, append_assoc,
}
use mathlib.Core.Path.{subst}
use belcoin.Codec.{Octets}
use belcoin.Raft.{Transmission, process, finish}
use belcoin.Raft.Log.{drop}
use belcoin.Raft.Log.Laws.{length-drop}
use belcoin.Raft.Send.{transmission_at, chunks_from, chunks, receive}

-- What a follower that has kept some bytes loads as entries from the pieces that arrive in order, and
-- what it keeps at the end
unfoldable pub receive_all : Octets → List (Transmission × Octets) → List Octets × Octets
unfolding receive
receive_all kept [] = ([], kept)
receive_all kept ((kind, piece) ∷ more) =
    let got = receive kept kind piece in
    let rest = receive_all got.1 more in
    elim got.0 [ none ↦ rest | some bytes ↦ (bytes ∷ rest.0, rest.1) ]

take-drop : (n : ℕ) (xs : Octets) → take n xs ++ drop n xs ≡ xs
take-drop zero xs = refl
take-drop (suc n) [] = refl
take-drop (suc n) (x ∷ xs) = ap (λ ys. x ∷ ys) (take-drop n xs)

take-all : (n : ℕ) (xs : Octets) → length xs ≤ n → take n xs ≡ xs
take-all zero [] h = refl
take-all zero (x ∷ xs) h = absurd (omega arith)
take-all (suc n) [] h = refl
take-all (suc n) (x ∷ xs) h = ap (λ ys. x ∷ ys) (take-all n xs (omega arith))

drop-all : (n : ℕ) (xs : Octets) → length xs ≤ n → drop n xs ≡ []
drop-all zero [] h = refl
drop-all zero (x ∷ xs) h = absurd (omega arith)
drop-all (suc n) [] h = refl
drop-all (suc n) (x ∷ xs) h = drop-all n xs (omega arith)

chunks-nil : (fuel batch size pos : ℕ) → chunks_from fuel batch size pos [] ≡ []
unfolding chunks_from
chunks-nil zero batch size pos = refl
chunks-nil (suc fuel) batch size pos = refl

pub at_finish :
    (batch size pos : ℕ) → 0 < pos → size ≤ pos + batch → transmission_at batch size pos ≡ finish
unfolding transmission_at
at_finish batch size pos p h = ground arith

at_process :
    (batch size pos : ℕ) → 0 < pos → pos + batch < size → transmission_at batch size pos ≡ process
unfolding transmission_at
at_process batch size pos p h = ground arith

-- No piece but the last one reaches the size of the command: `rest` bytes are left from `pos` on, and
-- a piece ends at each `pos + j * batch`.
abbrev Short : ℕ → ℕ → ℕ → ℕ → Type 0
Short batch size pos rest = (j : ℕ) → 1 ≤ j → j * batch < rest → pos + j * batch < size

module _ (batch size : ℕ) (positive : 0 < batch) where
  last_piece :
      (fuel pos : ℕ) (kept rest : Octets)
      → 0 < pos
      → 0 < length rest
      → length rest ≤ batch
      → size ≤ pos + length rest
      → receive_all kept (chunks_from (suc fuel) batch size pos rest) ≡ ((kept ++ rest) ∷ [], [])
  unfolding receive_all chunks_from
  last_piece fuel pos kept [] p l short s = absurd (omega arith)
  last_piece fuel pos kept (b ∷ rest) p l short s = ap (receive_all kept) only
    where
      only : chunks_from (suc fuel) batch size pos (b ∷ rest) ≡ (finish, b ∷ rest) ∷ []
      only =
          ap
            (λ kind.
              (kind, take batch (b ∷ rest))
              ∷ chunks_from fuel batch size (pos + batch) (drop batch (b ∷ rest)))
            (at_finish batch size pos p (omega arith))
          ∙ (ap
                (λ piece.
                  (finish, piece)
                  ∷ chunks_from fuel batch size (pos + batch) (drop batch (b ∷ rest)))
                (take-all batch (b ∷ rest) short)
              ∙ (ap (λ more. (finish, b ∷ rest) ∷ chunks_from fuel batch size (pos + batch) more)
                    (drop-all batch (b ∷ rest) short)
                  ∙ ap (λ more. (finish, b ∷ rest) ∷ more)
                      (chunks-nil fuel batch size (pos + batch))))

  -- A piece that is not the last is kept.
  pub kept_piece :
      (fuel pos : ℕ) (kept rest : Octets)
      → 0 < pos
      → 0 < length rest
      → pos + batch < size
      → receive_all kept (chunks_from (suc fuel) batch size pos rest)
        ≡ receive_all
            (kept ++ take batch rest)
            (chunks_from fuel batch size (pos + batch) (drop batch rest))
  unfolding receive_all chunks_from
  kept_piece fuel pos kept [] p l s = absurd (omega arith)
  kept_piece fuel pos kept (b ∷ rest) p l s =
      ap
        (λ kind. receive_all kept (
          (kind, take batch (b ∷ rest))
          ∷ chunks_from fuel batch size (pos + batch) (drop batch (b ∷ rest))))
        (at_process batch size pos p s)

  more_pieces :
      (fuel pos : ℕ) (kept rest : Octets)
      → 0 < pos
      → 0 < length rest
      → length rest ≤ fuel
      → size ≤ pos + length rest
      → Short batch size pos (length rest)
      → receive_all kept (chunks_from fuel batch size pos rest) ≡ ((kept ++ rest) ∷ [], [])
  more_pieces zero pos kept rest p l enough s f = absurd (omega arith)
  more_pieces (suc fuel) pos kept rest p l enough s f =
      elim (Bool-cases (leb (length rest) batch)) [
        | inl short ↦ last_piece fuel pos kept rest p l (ground arith) s
        | inr long ↦
            let n = length-drop batch rest in
            let over : batch < length rest = ground arith in
            kept_piece fuel pos kept rest p l (omega (arith, f 1 (omega arith) (omega arith)))
            ∙ (more_pieces fuel (pos + batch) (kept ++ take batch rest) (drop batch rest)
                  (omega arith) (omega arith) (omega arith) (omega arith)
                  (λ j one lt. later j (
                    f (j + 1) (omega arith)
                      (twice j (length rest) over (subst (λ k. j * batch < k) n lt))))
                ∙ ap (λ bytes. (bytes ∷ [], []))
                    (append_assoc kept (take batch rest) (drop batch rest)
                      ∙ ap (λ bytes. kept ++ bytes) (take-drop batch rest)))
      ]
    where
      twice : (j n : ℕ) → batch < n → j * batch < n - batch → (j + 1) * batch < n
      twice j n h k = grind arith

      later : (j : ℕ) → pos + (j + 1) * batch < size → pos + batch + j * batch < size
      later j h = grind arith

  -- A follower that gets the pieces of a pickled entry in order loads an entry once, from exactly the
  -- pickled bytes, and keeps nothing, whatever it had kept before. The entry is longer than one piece
  -- and not shorter than its command, and no piece but the last ends at or after the size of the
  -- command.
  pub receive_all-chunks :
      (kept entry : Octets)
      → batch < length entry
      → size ≤ length entry
      → ((m : ℕ) → 2 ≤ m → m * batch < length entry → m * batch < size)
      → receive_all kept (chunks batch size entry) ≡ (entry ∷ [], [])
  unfolding chunks chunks_from receive_all transmission_at
  receive_all-chunks kept [] long s f = absurd (omega arith)
  receive_all-chunks kept (b ∷ rest) long s f =
      let entry = b ∷ rest in
      let n = length-drop batch entry in
      more_pieces (length rest) (0 + batch) (take batch entry) (drop batch entry) (omega arith)
        (omega arith) (omega arith) (omega arith)
        (λ j one lt.
          back j (
            f (j + 1) (omega arith)
              (twice j (length entry) long (subst (λ k. j * batch < k) n lt))))
      ∙ ap (λ bytes. (bytes ∷ [], [])) (take-drop batch entry)
    where
      twice : (j n : ℕ) → batch < n → j * batch < n - batch → (j + 1) * batch < n
      twice j n h k = grind arith

      back : (j : ℕ) → (j + 1) * batch < size → 0 + batch + j * batch < size
      back j h = grind arith
