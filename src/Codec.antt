-- ===== src/Codec.antt =====
-- How a wrapped transaction is written as bytes: `serialize` and `unserialize` of
-- belcoin_node/txnwrapper.py, over the buffer of package `tesseract`, which is a parameter.
pub mod RoundTrip
pub mod Stores
use belcoin.Prelude.{
  ℕ, zero, suc, ◌+◌, ◌<◌, ◌≡◌, Bool, true, false, not, Option, none, some, List, [], ◌∷◌, ◌++◌,
  ◌==◌, length, if◌then◌else◌,
}
use belcoin.Tesseract.{Bytes, Transaction}
use belcoin.Exec.{Result, ok, err, key_error, decode_error}
use belcoin.TxnWrapper.{TxnWrapper}
use belcoin.Plyvel.{Level}

-- The content of a file or a buffer, byte by byte.
abbrev pub Octets : Type 0
Octets = List ℕ

-- What `SerializationBuffer` and `Transaction` of tesseract do to the bytes: writing appends, reading
-- takes from the front and fails where the bytes do not fit. The documented behaviour: a number below
-- the bound of its encoding, and a transaction that tesseract can encode, are read as they were
-- written, whatever follows them.
pub record Buffer : Type 1 where
  pub varuint : ℕ → Octets
  pub read_varuint : Octets → Option (ℕ × Octets)
  pub byte : ℕ → Octets
  pub read_byte : Octets → Option (ℕ × Octets)
  pub txn : Transaction → Octets
  pub read_txn : Octets → Option (Transaction × Octets)
  pub varuint_bound : ℕ
  pub IsEncodable : Transaction → Type 0
  pub read-varuint :
      (n : ℕ) (rest : Octets)
      → n < varuint_bound
      → read_varuint (varuint n ++ rest) ≡ some (n, rest)
  pub read-byte : (n : ℕ) (rest : Octets) → n < 256 → read_byte (byte n ++ rest) ≡ some (n, rest)
  pub read-txn :
      (t : Transaction) (rest : Octets) → IsEncodable t → read_txn (txn t ++ rest) ≡ some (t, rest)

-- `int(i)` of a flag, and the truth of a number
abbrev pub flag : Bool → ℕ
flag true = 1
flag false = 0

abbrev pub is_set : ℕ → Bool
is_set n = not (n == 0)

module _ (B : Buffer) where
  abbrev pub write_flags : List Bool → Octets
  write_flags [] = []
  write_flags (b ∷ bs) = B.byte (flag b) ++ write_flags bs

  unfoldable pub serialize : TxnWrapper → Octets
  serialize w =
      B.txn w.txn ++ (B.varuint w.timestamp ++ (B.varuint (length w.utxos) ++ write_flags w.utxos))

  -- `for _ in range(n): utxos.append(buf.read_num(1))`
  unfoldable pub read_flags : ℕ → Octets → Option (List Bool × Octets)
  read_flags zero bytes = some ([], bytes)
  read_flags (suc n) bytes = elim (B.read_byte bytes) [
    | none ↦ none
    | some (i, rest) ↦ elim (read_flags n rest) [
      | none ↦ none
      | some (bs, end) ↦ some (is_set i ∷ bs, end)
    ]
  ]

  unfoldable pub unserialize : Octets → Option (TxnWrapper × Octets)
  unserialize bytes = elim (B.read_txn bytes) [
    | none ↦ none
    | some (t, after_txn) ↦ elim (B.read_varuint after_txn) [
      | none ↦ none
      | some (ts, after_ts) ↦ elim (B.read_varuint after_ts) [
        | none ↦ none
        | some (n, after_n) ↦ elim (read_flags n after_n) [
          | none ↦ none
          | some (bs, end) ↦ some (record { txn = t; timestamp = ts; utxos = bs }, end)
        ]
      ]
    ]
  ]

  -- The dictionary methods of `Storage` and of `PendingDB` (belcoin_node/pendingdb.py), on a database
  -- of bytes. A value that cannot be decoded raises.
  module _ (L : Level Octets) where
    unfoldable pub db_get : L.Db → Bytes → Result (Option TxnWrapper)
    db_get d key = elim (L.get d key) [
      | none ↦ ok none
      | some val ↦ elim (unserialize val) [ none ↦ err decode_error | some (w, _) ↦ ok (some w) ]
    ]

    -- `__getitem__`
    unfoldable pub db_item : L.Db → Bytes → Result TxnWrapper
    db_item d key = elim (db_get d key) [
      | err e ↦ err e
      | ok none ↦ err key_error
      | ok (some w) ↦ ok w
    ]

    -- `__setitem__`
    unfoldable pub db_set : L.Db → Bytes → TxnWrapper → L.Db
    db_set d key obj = L.put d key (serialize obj)

    -- `__contains__`
    unfoldable pub db_contains : L.Db → Bytes → Bool
    db_contains d key = elim (L.get d key) [ none ↦ false | some _ ↦ true ]

    -- `__delitem__`
    unfoldable pub db_del : L.Db → Bytes → L.Db
    db_del d key = L.delete d key

    -- `get`, `__getitem__` and `__setitem__` of the mempool (belcoin_node/mempool.py), whose values are
    -- transactions. `__getitem__` returns None for a missing key.
    unfoldable pub mempool_get : L.Db → Bytes → Result (Option Transaction)
    mempool_get d key = elim (L.get d key) [
      | none ↦ ok none
      | some val ↦ elim (B.read_txn val) [ none ↦ err decode_error | some (t, _) ↦ ok (some t) ]
    ]

    unfoldable pub mempool_set : L.Db → Bytes → Transaction → L.Db
    mempool_set d key obj = L.put d key (B.txn obj)
