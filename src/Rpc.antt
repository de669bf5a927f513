-- ===== src/Rpc.antt =====
-- The JSON-RPC interface (belcoin_node/rpcserver.py), on transactions that have been decoded from
-- their hexadecimal form. The artificial delay and the time measurement are left out.
pub mod Sound
pub mod Replies
use belcoin.Prelude.{
  ℕ, Option, ◌+◌, Bool, true, false, none, some, List, [], ◌∷◌, ◌==◌, if◌then◌else◌, elem,
}
use belcoin.Tesseract.{Bytes, Transaction}
use belcoin.Exec.{Result, ok, err}
use belcoin.Float.{Float, true_div}
use belcoin.Config.{time_multiplier}
use belcoin.State.{Env, Node, broadcast_txn, broadcast_txn_batch}
use belcoin.Mempool.{add_to_mempool}
use belcoin.Dict.{Dict, insert}
use belcoin.Query.{Utxo, utxos_for_pubkey, ◌>>=◌}
use belcoin.Fetch.{Reply, not_found, was_invalid, found}

module _ ⦃E : Env⦄ where
  open E use {crypto as C, wrappers as W, transactions as T}

  unfoldable pub note_received : Node → Node
  note_received s =
      if s.txns_received == 0 then record s { txns_received = s.txns_received + 1 } else s

  -- `if self.node.storage.mempool[tx.txid] is None:`; the flag is `rval`
  unfoldable pub put_if_new : Transaction → Node → Bool × Node
  put_if_new tx s = elim (T.get s.mempool tx.txid) [
    | none ↦ (true, add_to_mempool tx s)
    | some _ ↦ (false, s)
  ]

  unfoldable pub broadcast_if : Bool → Transaction → Node → Node
  broadcast_if b tx s = if b then record s { sent = broadcast_txn tx ∷ s.sent } else s

  unfoldable pub jsonrpc_puttxn : Transaction → Bool → Node → Bool × Node
  jsonrpc_puttxn tx broadcast s =
      let (new, s') = put_if_new tx (note_received s) in (new, broadcast_if broadcast tx s')

  -- the loop of `jsonrpc_puttxn_batch`
  unfoldable pub put_all : List Transaction → Node → Node
  put_all [] s = s
  put_all (tx ∷ txns) s = put_all txns (jsonrpc_puttxn tx false s).1

  -- `if broadcast:` of `jsonrpc_puttxn_batch`
  unfoldable pub start_batch : List Transaction → Bool → Node → Node
  start_batch txns broadcast s =
      if broadcast then record s { sent = broadcast_txn_batch txns ∷ s.sent } else s

  unfoldable pub jsonrpc_puttxn_batch : List Transaction → Bool → Node → Node
  jsonrpc_puttxn_batch txns broadcast s =
      put_all txns (start_batch txns broadcast (note_received s))

  -- `pend.get` has already decoded what it returns, so the decoding that follows raises what tesseract's
  -- buffer raises for something that is no byte string.
  unfoldable pub jsonrpc_req_txn : Bytes → Node → Result Reply
  jsonrpc_req_txn txid s =
      if elem txid s.invalid_txns then ok was_invalid else elim (T.get s.mempool txid) [
        | some txn ↦ ok (found txn)
        | none ↦ elim (W.get s.db txid) [
          | some w ↦ ok (found w.txn)
          | none ↦ elim (W.get s.pend txid) [ some _ ↦ err C.not_bytes_error | none ↦ ok not_found ]
        ]
      ]

  -- The result tells the transaction's hash and whether it was put in the mempool.
  unfoldable pub jsonrpc_sendrawtx : Transaction → Bool → Node → (Bool × Bytes) × Node
  jsonrpc_sendrawtx tx broadcast s =
      let (put, s') = jsonrpc_puttxn tx broadcast s in ((put, tx.txid), s')

  -- The transaction and its timestamp in seconds; `none` for the empty dict.
  unfoldable pub jsonrpc_gettx : Bytes → Node → Option (Transaction × Float)
  jsonrpc_gettx txid s = elim (W.get s.db txid) [
    | none ↦ none
    | some w ↦ some (w.txn, true_div w.timestamp time_multiplier)
  ]

  -- In seconds, as the source keeps `current_time`
  unfoldable pub jsonrpc_getblockheight : Node → Float
  jsonrpc_getblockheight s = true_div s.current_time time_multiplier

  -- `address_to_pubkey` is tesseract's. The first listing that raises ends the loop.
  unfoldable pub jsonrpc_getutxos :
      (Bytes → Bytes) → List Bytes → Dict (List Utxo) → Node → Result (Dict (List Utxo))
  jsonrpc_getutxos address_to_pubkey [] utxos_by_addr s = ok utxos_by_addr
  jsonrpc_getutxos address_to_pubkey (address ∷ addresses) utxos_by_addr s =
      utxos_for_pubkey s (address_to_pubkey address) >>= λ utxos.
      jsonrpc_getutxos address_to_pubkey addresses (insert address utxos utxos_by_addr) s
