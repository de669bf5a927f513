-- ===== src/Raft/Send/Broken.antt =====
-- Large entries of which a middle piece is taken for the last.
use belcoin.Prelude.{
  ℕ, zero, suc, ◌+◌, ◌-◌, ◌*◌, ◌≤◌, ◌<◌, ◌≡◌, sym, ap, List, [], ◌∷◌, ◌++◌, leb, arith, length,
  take, Bool-cases, inl, inr, length-append,
}
use mathlib.Core.Path.{subst}
use belcoin.Codec.{Octets}
use belcoin.Raft.Log.{drop}
use belcoin.Raft.Log.Laws.{length-take, length-drop}
use belcoin.Raft.Send.{transmission_at, chunks_from, chunks}
use belcoin.Raft.Send.Chunks.{receive_all, at_finish, kept_piece}

-- The first of the loaded entries has fewer than `n` bytes.
abbrev pub LoadsLess : ℕ → List Octets → Type 0
LoadsLess n loaded =
    (bytes : Octets) × (more : List Octets) × (loaded ≡ bytes ∷ more) × (length bytes < n)

module _ (batch size : ℕ) (positive : 0 < batch) where
  -- A piece at whose end the size of the command is reached is taken for the last.
  ending_piece :
      (fuel pos : ℕ) (kept rest : Octets)
      → 0 < pos
      → 0 < length rest
      → size ≤ pos + batch
      → (receive_all kept (chunks_from (suc fuel) batch size pos rest)).0
        ≡ (kept ++ take batch rest)
          ∷ (receive_all [] (chunks_from fuel batch size (pos + batch) (drop batch rest))).0
  unfolding receive_all chunks_from
  ending_piece fuel pos kept [] p l s = absurd (omega arith)
  ending_piece fuel pos kept (b ∷ rest) p l s =
      ap
        (λ kind.
          (receive_all kept (
            (kind, take batch (b ∷ rest))
            ∷ chunks_from fuel batch size (pos + batch) (drop batch (b ∷ rest)))).0)
        (at_finish batch size pos p s)

  broken_off :
      (fuel pos j : ℕ) (kept rest : Octets)
      → 0 < pos
      → length rest ≤ fuel
      → 1 ≤ j
      → j * batch < length rest
      → size ≤ pos + j * batch
      → LoadsLess
          (length kept + length rest)
          (receive_all kept (chunks_from fuel batch size pos rest)).0
  broken_off zero pos j kept rest p enough one lt s = absurd (omega arith)
  broken_off (suc fuel) pos j kept rest p enough one lt s =
      elim (Bool-cases (leb size (pos + batch))) [
        | inl ends ↦ (
          kept ++ take batch rest,
          (receive_all [] (chunks_from fuel batch size (pos + batch) (drop batch rest))).0,
          ending_piece fuel pos kept rest p (omega arith) (ground arith),
          omega (
            arith,
            length-append kept (take batch rest),
            length-take batch rest (omega (arith, at_least j one)),
            at_least j one,
          ),
        )
        | inr goes_on ↦
            subst (LoadsLess (length kept + length rest))
              (sym (
                ap (λ (r : List Octets × Octets). r.0)
                  (kept_piece batch size positive fuel pos kept rest p (omega arith)
                    (ground arith))))
              (subst
                (λ n.
                  LoadsLess n
                    (receive_all (kept ++ take batch rest)
                      (chunks_from fuel batch size (pos + batch) (drop batch rest))).0)
                (omega (
                  arith,
                  length-append kept (take batch rest),
                  length-take batch rest (omega (arith, at_least j one)),
                  length-drop batch rest,
                  at_least j one,
                ))
                (broken_off fuel (pos + batch) (j - 1) (kept ++ take batch rest) (drop batch rest)
                  (omega arith) (omega (arith, length-drop batch rest)) (two j one s (ground arith))
                  (omega (arith, length-drop batch rest, less j one)) (omega (arith, less j one))))
      ]
    where
      at_least : (j : ℕ) → 1 ≤ j → batch ≤ j * batch
      at_least j one = grind arith

      less : (j : ℕ) → 1 ≤ j → j * batch ≡ (j - 1) * batch + batch
      less zero h = absurd (omega arith)
      less (suc j) h = grind arith

      two : (j : ℕ) → 1 ≤ j → size ≤ pos + j * batch → pos + batch < size → 1 ≤ j - 1
      two zero h s g = absurd (omega arith)
      two (suc zero) h s g = absurd (omega arith)
      two (suc (suc j)) h s g = omega arith

  -- Where a piece of a pickled entry that is neither the first nor the last ends at or after the size
  -- of the command, the first bytes that a follower loads as an entry are fewer than were pickled.
  pub receive_all-broken :
      (kept entry : Octets) (m : ℕ)
      → 2 ≤ m
      → m * batch < length entry
      → size ≤ m * batch
      → LoadsLess (length entry) (receive_all kept (chunks batch size entry)).0
  unfolding chunks chunks_from receive_all transmission_at
  receive_all-broken kept [] m two lt s = absurd (omega arith)
  receive_all-broken kept (b ∷ rest) m two lt s =
      let entry = b ∷ rest in
      subst (λ n. LoadsLess n (receive_all kept (chunks batch size entry)).0)
        (omega (
          arith,
          length-take batch entry (omega (arith, less m two)),
          length-drop batch entry,
          less m two,
        ))
        (broken_off (length rest) (0 + batch) (m - 1) (take batch entry) (drop batch entry)
          (omega arith) (omega (arith, length-drop batch entry)) (omega arith)
          (omega (arith, length-drop batch entry, less m two)) (omega (arith, less m two)))
    where
      less : (m : ℕ) → 2 ≤ m → m * batch ≡ (m - 1) * batch + batch
      less zero h = absurd (omega arith)
      less (suc m) h = grind arith
