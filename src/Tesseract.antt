-- ===== src/Tesseract.antt =====
-- The attributes of the objects of package `tesseract` that the code reads (belcoin_node/storage.py
-- throughout; the positional arguments of test/createtxns.py show their order), and the functions of
-- packages outside the repository, as an interface.
-- Hashes, keys and signatures are only compared or handed on, so each is a natural number.
-- Python's integers are read as naturals: tesseract serialises them all without a sign.
use belcoin.Prelude.{ℕ, Bool, List}
use belcoin.Exec.{Raised}

abbrev pub Bytes : Type 0
Bytes = ℕ

-- An output: `Output(amount, pubkey, pubkey2, htlc_timeout, htlc_hashlock, htlc_pubkey)`.
pub record Output : Type 0 where
  pub amount : ℕ
  pub pubkey : Bytes
  pub pubkey2 : Bytes
  pub htlc_timeout : ℕ
  pub htlc_hashlock : Bytes
  pub htlc_pubkey : Bytes

-- An input: the output that it spends, and what unlocks that.
pub record Input : Type 0 where
  pub txid : Bytes
  pub index : ℕ
  pub signature : Bytes
  pub signature2 : Bytes
  pub htlc_preimage : Bytes
  pub htlc_signature : Bytes

pub record Transaction : Type 0 where
  pub txid : Bytes
  pub inputs : List Input
  pub outputs : List Output
  pub seq : ℕ
  pub timelock : ℕ

-- `NO_HASH`, `sha256` and `Output.get_pubkeys` of tesseract, `verify_sig` (of the module that stands
-- on `ed25519ll`): nothing is assumed of them here.
pub record Crypto : Type 0 where
  pub no_hash : Bytes
  pub sha256 : Bytes → Bytes
  pub get_pubkeys : Output → List Bytes
  -- `verify_sig(msg, pub_key, sig)`
  pub verify_sig : Bytes → Bytes → Bytes → Bool
  -- what a `SerializationBuffer` of something that is no byte string raises when it is read
  pub not_bytes_error : Raised
