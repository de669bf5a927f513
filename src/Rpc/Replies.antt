-- ===== src/Rpc/Replies.antt =====
-- What a node answers to its peers (belcoin_node/rpcserver.py).
use belcoin.Prelude.{◌≡◌, arith, inl, inr, Option-cases}
use belcoin.Tesseract.{Bytes}
use belcoin.Exec.{ok}
use belcoin.State.{Env, Node}
use belcoin.Mempool.Sound.{IsSound}
use belcoin.Fetch.{Reply, not_found, was_invalid, found}
use belcoin.Fetch.Sound.{Answers}
use belcoin.Rpc.{jsonrpc_req_txn}

module _ ⦃E : Env⦄ where
  open E use {wrappers as W, transactions as T}

  -- A node in a sound state answers a request with the transaction that was asked for, if it answers
  -- with one.
  pub jsonrpc_req_txn-Answers :
      (txid : Bytes) (s : Node) (r : Reply)
      → IsSound s
      → jsonrpc_req_txn txid s ≡ ok r
      → Answers r txid
  unfolding jsonrpc_req_txn
  jsonrpc_req_txn-Answers txid s not_found h e = tt
  jsonrpc_req_txn-Answers txid s was_invalid h e = tt
  jsonrpc_req_txn-Answers txid s (found t) h e = elim (Option-cases (T.get s.mempool txid)) [
    | inl unpooled ↦ elim (Option-cases (W.get s.db txid)) [
      | inl unstored ↦ absurd (ground (arith, unpooled, unstored))
      | inr (w, stored) ↦ ground (arith, unpooled, stored, h.keyed txid w stored)
    ]
    | inr (t', pooled) ↦ ground (arith, pooled, h.pool_keyed txid t' pooled)
  ]
