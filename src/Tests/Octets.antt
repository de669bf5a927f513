-- ===== src/Tests/Octets.antt =====
-- The theorems on bytes, signatures and the balance index, at concrete values.
use belcoin.Prelude.{
  ℕ, ◌≡◌, refl, true, false, not, ◌&&◌, Option, none, some, List, [], ◌∷◌, ◌++◌, arith, ◌==◌,
  if◌then◌else◌,
}
use belcoin.Tesseract.{Transaction}
use belcoin.Exec.{ok, err, key_error}
use belcoin.TxnWrapper.{TxnWrapper}
use belcoin.Dict.{insert, without}
use belcoin.Plyvel.{Level}
use belcoin.Plyvel.Memory.{memory}
use belcoin.Index.{has_ref, add_txn_to_balance_index, del_outputs}
use belcoin.Index.Laws.{names, del_outputs-add_txn}
use belcoin.Codec.{
  Octets, Buffer, serialize, unserialize, db_get, db_item, db_set, db_contains, db_del,
}
use belcoin.Codec.RoundTrip.{IsEncodableWrapper, unserialize-serialize}
use belcoin.Codec.Stores.{Stores, methods-Stores}
use belcoin.Signature.{Ed25519, sign, verify_sig}
use belcoin.Signature.RoundTrip.{verify_sig-sign}
use belcoin.Tests.{toy_crypto, transaction, pay, output}

abbrev head_tail : Octets → Option (ℕ × Octets)
head_tail [] = none
head_tail (n ∷ rest) = some (n, rest)

abbrev read_bare : Octets → Option (Transaction × Octets)
read_bare [] = none
read_bare (n ∷ rest) = some (transaction n [] [], rest)

-- One number for each value, and transactions without inputs and outputs only.
abbrev toy_buffer : Buffer
toy_buffer = record {
  varuint = λ n. n ∷ [];
  read_varuint = head_tail;
  byte = λ n. n ∷ [];
  read_byte = head_tail;
  txn = λ t. t.txid ∷ [];
  read_txn = read_bare;
  varuint_bound = 1000;
  IsEncodable = λ t. transaction t.txid [] [] ≡ t;
  read-varuint = λ n rest h. refl;
  read-byte = λ n rest h. refl;
  read-txn = λ t rest h i. some (h i, rest);
}

abbrev bare : TxnWrapper
bare = record { txn = transaction 11 [] []; timestamp = 5; utxos = true ∷ false ∷ [] }

bare-IsEncodableWrapper : IsEncodableWrapper toy_buffer bare
bare-IsEncodableWrapper = record { txn = refl; timestamp = omega arith; utxos = omega arith }

unserialize-serialize_example :
    unserialize toy_buffer (serialize toy_buffer bare ++ (1 ∷ 2 ∷ [])) ≡ some (bare, 1 ∷ 2 ∷ [])
unserialize-serialize_example =
    unserialize-serialize toy_buffer bare (1 ∷ 2 ∷ []) bare-IsEncodableWrapper

abbrev bytes_db : Level Octets
bytes_db = memory Octets

abbrev wrapper_db : Level TxnWrapper
wrapper_db = memory TxnWrapper

empty-Stores : Stores toy_buffer bytes_db wrapper_db [] []
empty-Stores = record { bytes = λ k. refl; encodable = λ k w e. cc }

methods-Stores_example :
    (db_get toy_buffer bytes_db [] 11 ≡ ok none)
    × (db_contains toy_buffer bytes_db [] 11 ≡ false)
    × (db_item toy_buffer bytes_db [] 11 ≡ err key_error)
    × Stores toy_buffer bytes_db wrapper_db
        (db_set toy_buffer bytes_db [] 11 bare)
        (insert 11 bare [])
    × Stores toy_buffer bytes_db wrapper_db (db_del toy_buffer bytes_db [] 11) (without 11 [])
methods-Stores_example =
    methods-Stores toy_buffer bytes_db wrapper_db [] [] 11 bare empty-Stores bare-IsEncodableWrapper

-- What is left after a prefix, if it is one.
abbrev strip : List ℕ → List ℕ → Option (List ℕ)
strip [] xs = some xs
strip (p ∷ prefix) [] = none
strip (p ∷ prefix) (x ∷ xs) = if p == x then strip prefix xs else none

strip-append : (prefix xs : List ℕ) → strip prefix (prefix ++ xs) ≡ some xs
strip-append [] xs = refl
strip-append (p ∷ prefix) xs = ground (arith, strip-append prefix xs)

-- The key itself is the signature.
abbrev toy_ed25519 : Ed25519
toy_ed25519 = record {
  crypto_sign = λ msg sk. sk ++ msg;
  crypto_sign_open = λ signed pk. strip pk signed;
  public_key = λ sk. sk;
  signature = λ msg sk. sk;
  sign_eq = λ msg sk. refl;
  open_sign = λ msg sk. strip-append sk msg;
}

verify_sig-sign_example :
    verify_sig toy_ed25519 (7 ∷ 8 ∷ []) (1 ∷ 2 ∷ []) (sign toy_ed25519 (7 ∷ 8 ∷ []) (1 ∷ 2 ∷ []))
    ≡ true
verify_sig-sign_example = verify_sig-sign toy_ed25519 (7 ∷ 8 ∷ []) (1 ∷ 2 ∷ []) (refl, (refl, tt))

del_outputs-add_txn_example :
    has_ref
      (del_outputs toy_crypto.get_pubkeys 8 0 pay.outputs
        (add_txn_to_balance_index toy_crypto.get_pubkeys pay ((2, (7, 0) ∷ []) ∷ [])))
      2
      (7, 0)
    ≡ (not (false && names toy_crypto.get_pubkeys 2 (some (output 4 2)))
        && has_ref ((2, (7, 0) ∷ []) ∷ []) 2 (7, 0))
del_outputs-add_txn_example =
    del_outputs-add_txn toy_crypto.get_pubkeys pay 2 (7, 0) ((2, (7, 0) ∷ []) ∷ [])
