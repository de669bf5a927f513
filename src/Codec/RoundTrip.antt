-- ===== src/Codec/RoundTrip.antt =====
-- What is written is read again.
use belcoin.Prelude.{
  ◌<◌, ◌≡◌, refl, Bool, true, false, some, List, [], ◌∷◌, ◌++◌, arith, length, append_assoc,
}
use belcoin.TxnWrapper.{TxnWrapper}
use belcoin.Codec.{Octets, Buffer, write_flags, serialize, read_flags, unserialize}

module _ (B : Buffer) where
  read-flags :
      (bs : List Bool) (rest : Octets)
      → read_flags B (length bs) (write_flags B bs ++ rest) ≡ some (bs, rest)
  unfolding read_flags
  read-flags [] rest = refl
  read-flags (true ∷ bs) rest =
      rw (append_assoc (B.byte 1) (write_flags B bs) rest)
        (rw (B.read-byte 1 (write_flags B bs ++ rest) (omega arith)) (rw (read-flags bs rest) refl))
  read-flags (false ∷ bs) rest =
      rw (append_assoc (B.byte 0) (write_flags B bs) rest)
        (rw (B.read-byte 0 (write_flags B bs ++ rest) (omega arith)) (rw (read-flags bs rest) refl))

  -- A wrapper that can be encoded: its transaction, its timestamp and the number of its flags.
  pub record IsEncodableWrapper (w : TxnWrapper) : Type 0 where
    pub txn : B.IsEncodable w.txn
    pub timestamp : w.timestamp < B.varuint_bound
    pub utxos : length w.utxos < B.varuint_bound

  -- A wrapper that can be encoded is read as it was written, also when more bytes follow.
  pub unserialize-serialize :
      (w : TxnWrapper) (rest : Octets)
      → IsEncodableWrapper w
      → unserialize B (serialize B w ++ rest) ≡ some (w, rest)
  unfolding unserialize serialize
  unserialize-serialize w rest h =
      let flags = write_flags B w.utxos in
      let count = B.varuint (length w.utxos) in
      let ts = B.varuint w.timestamp in
      rw (append_assoc (B.txn w.txn) (ts ++ (count ++ flags)) rest) (
        rw (B.read-txn w.txn ((ts ++ (count ++ flags)) ++ rest) h.txn, unserialize)
          (rw (append_assoc ts (count ++ flags) rest) (
            rw (B.read-varuint w.timestamp ((count ++ flags) ++ rest) h.timestamp, unserialize)
              (rw (append_assoc count flags rest) (
                rw (B.read-varuint (length w.utxos) (flags ++ rest) h.utxos, unserialize)
                  (rw (read-flags w.utxos rest, unserialize) refl))))))
