-- ===== src/Query.antt =====
-- What a node tells of its ledger: `utxos_for_pubkey`, `utxos_for_pubkey_grpc` and `get_balance` of
-- belcoin_node/storage.py. Sets are listed in the order of the index.
pub mod Listings
pub mod Complete
use belcoin.Prelude.{
  ◌++◌, ℕ, ◌+◌, Bool, true, false, ◌&&◌, ◌||◌, Option, none, some, List, [], ◌∷◌, ◌==◌,
  if◌then◌else◌, get_elem?,
}
use belcoin.Tesseract.{Bytes, Output}
use belcoin.Exec.{Result, ok, err, key_error, index_error}
use belcoin.TxnWrapper.{TxnWrapper}
use belcoin.Index.{Ref, Index, refs_of}
use belcoin.Dict.{lookup}
use belcoin.Float.{Float, true_div}
use belcoin.Config.{time_multiplier}
use belcoin.Verify.{timeout_reached, refs_subset}
use belcoin.State.{Env, Node}

infixl 5 ◌>>=◌
abbrev pub ◌>>=◌ : {A B : Type 0} → Result A → (A → Result B) → Result B
ok a >>= f = f a
err e >>= f = err e

-- An entry `[txid, i, ts]` of `utxos_for_pubkey`; `ts` is in seconds.
pub record Utxo : Type 0 where
  pub ref : Ref
  pub ts : Float

-- An entry `[txid, i, output, ts]` of `utxos_for_pubkey_grpc`.
pub record UtxoGrpc : Type 0 where
  pub ref : Ref
  pub output : Output
  pub ts : ℕ

pub record Balance : Type 0 where
  pub bal : ℕ
  pub bal_partial : ℕ
  pub bal_htlc : ℕ

abbrev pub no_balance : Balance
no_balance = record { bal = 0; bal_partial = 0; bal_htlc = 0 }

-- The two `if`s in the loop of `get_balance`.
unfoldable pub add_output : ℕ → Bytes → TxnWrapper → Output → Balance → Balance
add_output now pubkey w o b =
    if timeout_reached now w o
    then (if (pubkey == o.pubkey) || (pubkey == o.pubkey2)
        then (if o.pubkey == o.pubkey2
            then record b { bal = b.bal + o.amount }
            else record b { bal_partial = b.bal_partial + o.amount })
        else b)
    else if pubkey == o.htlc_pubkey
    then record b { bal_htlc = b.bal_htlc + o.amount }
    else b

abbrev pub same_refs : Option (List Ref) → Option (List Ref) → Bool
same_refs none none = true
same_refs none (some ys) = false
same_refs (some xs) none = false
same_refs (some xs) (some ys) = refs_subset xs ys && refs_subset ys xs

abbrev pub keys_of : Index → List Bytes
keys_of [] = []
keys_of ((p, rs) ∷ more) = p ∷ keys_of more

abbrev pub agree_on : List Bytes → Index → Index → Bool
agree_on [] a b = true
agree_on (p ∷ ps) a b = same_refs (lookup p a) (lookup p b) && agree_on ps a b

-- `a == b` of two dicts of sets: the same keys, each with the same elements
unfoldable pub index_eq : Index → Index → Bool
index_eq a b = agree_on (keys_of a ++ keys_of b) a b

module _ ⦃E : Env⦄ where
  open E use {wrappers as W}

  -- One of the two loops of `utxos_for_pubkey`. Both read `self[txid]`, the ledger, also the one over
  -- the index of the pending transactions.
  unfoldable pub utxos_of : Node → List Ref → Result (List Utxo)
  utxos_of s [] = ok []
  utxos_of s ((txid, i) ∷ rs) = elim (W.get s.db txid) [
    | none ↦ err key_error
    | some w ↦ utxos_of s rs >>= λ us.
        ok (record { ref = (txid, i); ts = true_div w.timestamp time_multiplier } ∷ us)
  ]

  unfoldable pub utxos_for_pubkey : Node → Bytes → Result (List Utxo)
  utxos_for_pubkey s pubkey = utxos_of s (refs_of s.pub_outs pubkey) >>= λ us.
      utxos_of s (refs_of s.pub_outs_pend pubkey) >>= λ vs. ok (us ++ vs)

  -- A loop of `utxos_for_pubkey_grpc`, over the database `db` or `pend`.
  unfoldable pub utxos_grpc_of : W.Db → List Ref → Result (List UtxoGrpc)
  utxos_grpc_of d [] = ok []
  utxos_grpc_of d ((txid, i) ∷ rs) = elim (W.get d txid) [
    | none ↦ err key_error
    | some w ↦ elim (get_elem? w.txn.outputs i) [
      | none ↦ err index_error
      | some o ↦ utxos_grpc_of d rs >>= λ us.
          ok (record { ref = (txid, i); output = o; ts = w.timestamp } ∷ us)
    ]
  ]

  unfoldable pub utxos_for_pubkey_grpc : Node → Bytes → Result (List UtxoGrpc)
  utxos_for_pubkey_grpc s pubkey = utxos_grpc_of s.db (refs_of s.pub_outs pubkey) >>= λ us.
      utxos_grpc_of s.pend (refs_of s.pub_outs_pend pubkey) >>= λ vs. ok (us ++ vs)

  -- The loop of `get_balance` over the outputs that the index lists, in the database that goes with
  -- it.
  unfoldable pub balance_of : ℕ → Bytes → W.Db → List Ref → Balance → Result Balance
  balance_of now pubkey d [] b = ok b
  balance_of now pubkey d ((txid, i) ∷ rs) b = elim (W.get d txid) [
    | none ↦ err key_error
    | some w ↦ elim (get_elem? w.txn.outputs i) [
      | none ↦ err index_error
      | some o ↦ balance_of now pubkey d rs (add_output now pubkey w o b)
    ]
  ]

  -- The database in which `get_balance` looks the outputs of an index up
  abbrev pub db_for : Node → Index → W.Db
  db_for s index = if index_eq index s.pub_outs then s.db else s.pend

  -- A key that is not in the index has no outputs there.
  unfoldable pub get_balance : Node → Bytes → Index → Result Balance
  unfolding index_eq
  get_balance s pubkey index =
      balance_of s.current_time pubkey (db_for s index) (refs_of index pubkey) no_balance
