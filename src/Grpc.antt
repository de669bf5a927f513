-- ===== src/Grpc.antt =====
-- The gRPC interface (belcoin_node/grpcinterface.py). Every call is handed to the reactor's thread.
use belcoin.Float.{true_div, int}
use belcoin.Prelude.{ℕ, true, none, some, List, map, Option}
use belcoin.Tesseract.{Bytes, Transaction, Output}
use belcoin.Config.{time_multiplier}
use belcoin.Exec.{Result, ok}
use belcoin.Index.{Ref}
use belcoin.State.{Env, Node}
use belcoin.Query.{UtxoGrpc, utxos_for_pubkey_grpc, ◌>>=◌}
use belcoin.Rpc.{jsonrpc_puttxn}

-- `UTXO` of tesseract's interface: the reference, the output and the block height.
pub record GrpcUtxo : Type 0 where
  pub ref : Ref
  pub output : Output
  pub blockheight : ℕ

abbrev pub to_grpc : UtxoGrpc → GrpcUtxo
to_grpc u = record {
  ref = u.ref;
  output = u.output;
  blockheight = int (true_div u.ts time_multiplier);
}

module _ ⦃E : Env⦄ where
  open E use {wrappers as W}

  -- `none` for the response with `b'0'` and height 0
  unfoldable pub get_tx : Bytes → Node → Option (Transaction × ℕ)
  get_tx txid s = elim (W.get s.db txid) [
    | none ↦ none
    | some w ↦ some (w.txn, int (true_div w.timestamp time_multiplier))
  ]

  unfoldable pub get_utxos : Bytes → Node → Result (List GrpcUtxo)
  get_utxos pubkey s = utxos_for_pubkey_grpc s pubkey >>= λ us. ok (map to_grpc us)

  unfoldable pub send_tx : Transaction → Node → Node
  send_tx tx s = (jsonrpc_puttxn tx true s).1
