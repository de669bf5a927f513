-- ===== src/Codec/Stores.antt =====
-- The databases of bytes hold what the databases of the other modules hold.
use mathlib.Core.Path.{subst}
use belcoin.Prelude.{
  ◌≡◌, ap, ◌∙◌, sym, Option, none, some, [], arith, ◌==◌, is_some, append-nil, Bool-cases,
  Option-cases, inl, inr,
}
use belcoin.Tesseract.{Bytes}
use belcoin.Exec.{ok, err, key_error}
use belcoin.TxnWrapper.{TxnWrapper}
use belcoin.Plyvel.{Level}
use belcoin.Codec.{
  Octets, Buffer, serialize, unserialize, db_get, db_item, db_set, db_contains, db_del,
}
use belcoin.Codec.RoundTrip.{IsEncodableWrapper, unserialize-serialize}

module _ (B : Buffer) (L : Level Octets) (W : Level TxnWrapper) where
  -- The bytes of a wrapper, if there is one.
  abbrev bytes_of : Option TxnWrapper → Option Octets
  bytes_of none = none
  bytes_of (some w) = some (serialize B w)

  -- A database of bytes holds the encodings of the wrappers of another, all of which can be encoded.
  pub record Stores (d : L.Db) (v : W.Db) : Type 0 where
    pub bytes : (k : Bytes) → L.get d k ≡ bytes_of (W.get v k)
    pub encodable : (k : Bytes) (w : TxnWrapper) → W.get v k ≡ some w → IsEncodableWrapper B w

  unserialize_whole :
      (w : TxnWrapper) → IsEncodableWrapper B w → unserialize B (serialize B w) ≡ some (w, [])
  unserialize_whole w h =
      ap (unserialize B) (sym (append-nil (serialize B w))) ∙ unserialize-serialize B w [] h

  db_get_lem : (d : L.Db) (v : W.Db) (k : Bytes) → Stores d v → db_get B L d k ≡ ok (W.get v k)
  unfolding db_get
  db_get_lem d v k h = elim (Option-cases (W.get v k)) [
    | inl absent ↦ ground (arith, h.bytes k, absent)
    | inr (w, there) ↦ ground (arith, h.bytes k, there, unserialize_whole w (h.encodable k w there))
  ]

  db_set-Stores :
      (d : L.Db) (v : W.Db) (k : Bytes) (w : TxnWrapper)
      → Stores d v
      → IsEncodableWrapper B w
      → Stores (db_set B L d k w) (W.put v k w)
  unfolding db_set
  db_set-Stores d v k w h e = record {
    bytes = λ j. ground (arith, L.get-put d k j (serialize B w), W.get-put v k j w, h.bytes j);
    encodable = λ j u g. elim (Bool-cases (k == j)) [
      | inl same ↦ subst (IsEncodableWrapper B) (ground (arith, W.get-put v k j w)) e
      | inr other ↦ h.encodable j u (ground (arith, W.get-put v k j w))
    ];
  }

  db_del-Stores :
      (d : L.Db) (v : W.Db) (k : Bytes) → Stores d v → Stores (db_del B L d k) (W.delete v k)
  unfolding db_del
  db_del-Stores d v k h = record {
    bytes = λ j. ground (arith, L.get-delete d k j, W.get-delete v k j, h.bytes j);
    encodable = λ j u g. h.encodable j u (ground (arith, W.get-delete v k j));
  }

  -- The dictionary methods on a database of bytes do what the operations on wrappers do, as long as what
  -- is written can be encoded: `get` and `in` read the same, `[]` raises a KeyError exactly where there
  -- is none, and writing and deleting keep the two databases together.
  pub methods-Stores :
      (d : L.Db) (v : W.Db) (k : Bytes) (w : TxnWrapper)
      → Stores d v
      → IsEncodableWrapper B w
      → (db_get B L d k ≡ ok (W.get v k))
        × (db_contains B L d k ≡ is_some (W.get v k))
        × (db_item B L d k ≡ elim (W.get v k) [ none ↦ err key_error | some u ↦ ok u ])
        × Stores (db_set B L d k w) (W.put v k w)
        × Stores (db_del B L d k) (W.delete v k)
  unfolding db_contains db_item
  methods-Stores d v k w h e = (
    db_get_lem d v k h,
    ground (arith, h.bytes k),
    ground (arith, db_get_lem d v k h),
    db_set-Stores d v k w h e,
    db_del-Stores d v k h,
  )
