-- ===== src/Fetch/Peers.antt =====
-- Which peers a node asks for a transaction (belcoin_node/storage.py, `req_txn`).
use native.Mathlib.Nat.{mod-lt, mod-eq_of_lt, mod-add-mod, add-mod_right}
use belcoin.Prelude.{
  ℕ, ◌+◌, ◌-◌, ◌%◌, ◌<◌, ◌≡◌, sym, ap, ◌∙◌, List, ◌∷◌, arith, leb, length, get_elem?, inl, inr,
  Bool-cases,
}
use belcoin.Exec.{ok}
use belcoin.Fetch.{req_txn}

module _ {A : Type 0} (first : A) (others : List A) where
  abbrev peers : List A
  peers = first ∷ others

  remainder :
      (i k j : ℕ)
      → (i + 1) % length peers + k ≡ j
      → j < length peers
      → (i + k + 1) % length peers ≡ j
  remainder i k j e h =
      ap (λ n. n % length peers) (omega arith)
      ∙ sym (mod-add-mod (i + 1) (length peers) k)
      ∙ ap (λ n. n % length peers) e
      ∙ mod-eq_of_lt h

  remainder_around :
      (i k j : ℕ)
      → (i + 1) % length peers + k ≡ j + length peers
      → j < length peers
      → (i + k + 1) % length peers ≡ j
  remainder_around i k j e h =
      ap (λ n. n % length peers) (omega arith)
      ∙ sym (mod-add-mod (i + 1) (length peers) k)
      ∙ ap (λ n. n % length peers) e
      ∙ add-mod_right j (length peers)
      ∙ mod-eq_of_lt h

  asks :
      (i k j : ℕ)
      → (i + k + 1) % length peers ≡ j
      → req_txn peers (i + k) ≡ ok (get_elem? peers j, i + k + 1)
  unfolding req_txn
  asks i k j e = ap (λ n. ok (get_elem? peers n, i + k + 1)) e

  -- Each attempt's number is one more than the last one's. From any attempt on, each peer is asked in
  -- one of as many attempts as there are peers.
  pub req_txn-asks_all :
      (i j : ℕ)
      → j < length peers
      → (k : ℕ) × (k < length peers) × (req_txn peers (i + k) ≡ ok (get_elem? peers j, i + k + 1))
  req_txn-asks_all i j h =
      let r = (i + 1) % length peers in
      let below : r < length peers = mod-lt (i + 1) (omega arith) in
      elim (Bool-cases (leb r j)) [
        | inl ahead ↦
            (j - r, omega arith, asks i (j - r) j (remainder i (j - r) j (ground (arith, ahead)) h))
        | inr behind ↦ (
          j + length peers - r,
          ground (arith, behind),
          asks i (j + length peers - r) j
              (remainder_around i (j + length peers - r) j (ground (arith, below)) h),
        )
      ]
