-- ===== src/Query/Listings.antt =====
-- The two listings of a key's outputs, `utxos_for_pubkey` and `utxos_for_pubkey_grpc` of
-- belcoin_node/storage.py, against each other.
use belcoin.Prelude.{
  append-nil, ◌≡◌, refl, none, List, [], ◌∷◌, map, arith, In, inl, inr, get_elem?, Option-cases,
  ◌⊎◌,
}
use belcoin.Tesseract.{Bytes}
use belcoin.Exec.{Result, Raised, ok, err, key_error}
use belcoin.Index.{Ref, refs_of}
use belcoin.Float.{true_div}
use belcoin.Config.{time_multiplier}
use belcoin.State.{Env, Node}
use belcoin.Query.{Utxo, UtxoGrpc, utxos_of, utxos_for_pubkey, utxos_grpc_of, utxos_for_pubkey_grpc}

-- An entry of the listing for gRPC without its output, with the time in seconds
abbrev pub in_seconds : UtxoGrpc → Utxo
in_seconds u = record { ref = u.ref; ts = true_div u.ts time_multiplier }

module _ ⦃E : Env⦄ where
  open E use {wrappers as W}

  Result-cases : {A : Type 0} (r : Result A) → ((a : A) × (r ≡ ok a)) ⊎ ((e : Raised) × (r ≡ err e))
  Result-cases (ok a) = inl (a, refl)
  Result-cases (err e) = inr (e, refl)

  utxos_of-missing :
      (s : Node) (r : Ref) (rs : List Ref)
      → In r rs
      → W.get s.db r.0 ≡ none
      → utxos_of s rs ≡ err key_error
  unfolding utxos_of
  utxos_of-missing s r [] here missing = elim here [ ]
  utxos_of-missing s r ((k, i) ∷ rs) (inl e) missing = ground (arith, e, missing)
  utxos_of-missing s r ((k, i) ∷ rs) (inr later) missing = elim (Option-cases (W.get s.db k)) [
    | inl none_here ↦ ground (arith, none_here)
    | inr (w, here) ↦ ground (arith, here, utxos_of-missing s r rs later missing)
  ]

  -- If a key has an output in a pending transaction that is not in the ledger, as none is, the listing
  -- for the JSON-RPC interface raises a KeyError: it looks the pending transaction up in the ledger.
  pub utxos_for_pubkey-pending :
      (s : Node) (pubkey : Bytes) (r : Ref) (us : List Utxo)
      → utxos_of s (refs_of s.pub_outs pubkey) ≡ ok us
      → In r (refs_of s.pub_outs_pend pubkey)
      → W.get s.db r.0 ≡ none
      → utxos_for_pubkey s pubkey ≡ err key_error
  unfolding utxos_for_pubkey
  utxos_for_pubkey-pending s pubkey r us stored pending missing =
      rw stored (rw (utxos_of-missing s r (refs_of s.pub_outs_pend pubkey) pending missing) refl)

  utxos_of-grpc :
      (s : Node) (rs : List Ref) (us : List UtxoGrpc)
      → utxos_grpc_of s.db rs ≡ ok us
      → utxos_of s rs ≡ ok (map in_seconds us)
  unfolding utxos_of utxos_grpc_of
  utxos_of-grpc s [] us h = ground arith
  utxos_of-grpc s ((k, i) ∷ rs) us h = elim (Option-cases (W.get s.db k)) [
    | inl missing ↦ absurd (ground (arith, missing))
    | inr (w, here) ↦ elim (Option-cases (get_elem? w.txn.outputs i)) [
      | inl outside ↦ absurd (ground (arith, here, outside))
      | inr (o, listed) ↦ elim (Result-cases (utxos_grpc_of s.db rs)) [
        | inl (vs, rest) ↦ ground (arith, here, listed, rest, utxos_of-grpc s rs vs rest)
        | inr (e, fails) ↦ absurd (ground (arith, here, listed, fails))
      ]
    ]
  ]

  -- Where no output of a pending transaction names the key and the listing for gRPC returns, the
  -- listing for the JSON-RPC interface returns the same outputs in the same
  -- order, with their timestamps divided by TIME_MULTIPLIER.
  pub utxos_for_pubkey-grpc :
      (s : Node) (pubkey : Bytes) (us : List UtxoGrpc)
      → refs_of s.pub_outs_pend pubkey ≡ []
      → utxos_for_pubkey_grpc s pubkey ≡ ok us
      → utxos_for_pubkey s pubkey ≡ ok (map in_seconds us)
  unfolding utxos_for_pubkey utxos_for_pubkey_grpc utxos_of utxos_grpc_of
  utxos_for_pubkey-grpc s pubkey us nothing h =
      elim (Result-cases (utxos_grpc_of s.db (refs_of s.pub_outs pubkey))) [
        | inl (vs, e) ↦ ground (
          arith,
          e,
          nothing,
          utxos_of-grpc s (refs_of s.pub_outs pubkey) vs e,
          append-nil vs,
          append-nil (map in_seconds vs),
        )
        | inr (x, fails) ↦ absurd (ground (arith, fails))
      ]
