-- ===== src/Start/Restart.antt =====
-- What a node forgets when it is started again.
use belcoin.Prelude.{
  ℕ, ◌≡◌, ◌∙◌, Bool, true, false, some, List, [], ◌∷◌, arith, get_elem?, elem, Option-cases, inl,
  inr,
}
use belcoin.Tesseract.{Bytes, Transaction, Output}
use belcoin.TxnWrapper.{TxnWrapper, wrap}
use belcoin.Index.{has_ref}
use belcoin.State.{Env, Node}
use belcoin.Mempool.Sound.{IsSound}
use belcoin.Rpc.{jsonrpc_puttxn, note_received, put_if_new, broadcast_if}
use belcoin.Start.{put_genesis, init, restart}
use belcoin.Start.Sound.{has_ref-init}

module _ ⦃E : Env⦄ where
  open E use {crypto as C, wrappers as W, transactions as T}

  put_genesis-get :
      (coinbase : List Transaction) (d : W.Db) (k : Bytes) (w : TxnWrapper)
      → W.get d k ≡ some w
      → W.get (put_genesis coinbase d) k ≡ some w
  unfolding put_genesis
  put_genesis-get [] d k w e = e
  put_genesis-get (txn ∷ coinbase) d k w e = elim (Option-cases (W.get d txn.txid)) [
    | inl new ↦ rw new (
        put_genesis-get coinbase (W.put d txn.txid (wrap txn 0)) k w
          (ground (arith, W.get-put d txn.txid k (wrap txn 0), new, e)))
    | inr (v, old) ↦ rw old (put_genesis-get coinbase d k w e)
  ]

  put_genesis-keyed :
      (coinbase : List Transaction) (d : W.Db)
      → ((k : Bytes) (w : TxnWrapper) → W.get d k ≡ some w → w.txn.txid ≡ k)
      → (k : Bytes) (w : TxnWrapper) → W.get (put_genesis coinbase d) k ≡ some w
      → w.txn.txid ≡ k
  unfolding put_genesis
  put_genesis-keyed [] d h = h
  put_genesis-keyed (txn ∷ coinbase) d h = elim (Option-cases (W.get d txn.txid)) [
    | inl new ↦ rw new (
        put_genesis-keyed coinbase (W.put d txn.txid (wrap txn 0))
          (λ k w e. ground (arith, W.get-put d txn.txid k (wrap txn 0), h k w)))
    | inr (v, old) ↦ rw old (put_genesis-keyed coinbase d h)
  ]

  -- A spent output is not in the index of a node in a sound state. Once the node is started again,
  -- the index lists it for the keys that it names: the loop of `__init__` adds all outputs.
  pub restart-lists_spent :
      (coinbase : List Transaction) (s : Node) (k p : Bytes) (i : ℕ) (w : TxnWrapper) (o : Output)
      → IsSound s
      → W.get s.db k ≡ some w
      → get_elem? w.utxos i ≡ some false
      → get_elem? w.txn.outputs i ≡ some o
      → elem p (C.get_pubkeys o) ≡ true
      → (has_ref s.pub_outs p (k, i) ≡ false)
        × (has_ref (restart coinbase s).pub_outs p (k, i) ≡ true)
  unfolding restart
  restart-lists_spent coinbase s k p i w o h stored spent listed named = (
    ground (arith, h.indexed p (k, i), stored),
    has_ref-init coinbase s.db s.pend s.mempool p (k, i) (put_genesis-keyed coinbase s.db h.keyed)
        ∙ ground (arith, put_genesis-get coinbase s.db k w stored, listed),
  )

  -- A transaction that is in the mempool's database when a node is started again stays out of the list
  -- from which blocks are made, also when it is put again.
  pub restart-forgets_pooled :
      (coinbase : List Transaction) (s : Node) (tx t : Transaction) (b : Bool)
      → T.get s.mempool tx.txid ≡ some t
      → ((jsonrpc_puttxn tx b (restart coinbase s)).0 ≡ false)
        × ((jsonrpc_puttxn tx b (restart coinbase s)).1.mempool_list ≡ [])
  unfolding restart init jsonrpc_puttxn note_received put_if_new broadcast_if
  restart-forgets_pooled coinbase s tx t true pooled =
      (ground (arith, pooled), ground (arith, pooled))
  restart-forgets_pooled coinbase s tx t false pooled =
      (ground (arith, pooled), ground (arith, pooled))
