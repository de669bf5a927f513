-- ===== src/Rpc/Sound.antt =====
-- A transaction that comes in over JSON-RPC enters the mempool once.
use belcoin.Prelude.{
  refl, Bool, true, false, List, [], ◌∷◌, inl, inr, Bool-cases, Option-cases, ◌==◌,
}
use belcoin.Tesseract.{Transaction}
use belcoin.State.{Env, Node}
use belcoin.Mempool.Sound.{IsSound, add_to_mempool-IsSound}
use belcoin.Block.Sound.{IsSound-same}
use belcoin.Rpc.{
  note_received, put_if_new, broadcast_if, jsonrpc_puttxn, put_all, start_batch,
  jsonrpc_puttxn_batch,
}

module _ ⦃E : Env⦄ where
  open E use {transactions as T}

  note_received-IsSound : (s : Node) → IsSound s → IsSound (note_received s)
  unfolding note_received
  note_received-IsSound s h = elim (Bool-cases (s.txns_received == 0)) [
    | inl first ↦ rw first (IsSound-same s _ h refl refl refl refl refl)
    | inr later ↦ rw later h
  ]

  put_if_new-IsSound : (tx : Transaction) (s : Node) → IsSound s → IsSound (put_if_new tx s).1
  unfolding put_if_new
  put_if_new-IsSound tx s h = elim (Option-cases (T.get s.mempool tx.txid)) [
    | inl new ↦ rw (new, put_if_new) (add_to_mempool-IsSound tx s h new)
    | inr (t, old) ↦ rw (old, put_if_new) h
  ]

  broadcast_if-IsSound :
      (b : Bool) (tx : Transaction) (s : Node) → IsSound s → IsSound (broadcast_if b tx s)
  unfolding broadcast_if
  broadcast_if-IsSound true tx s h = IsSound-same s _ h refl refl refl refl refl
  broadcast_if-IsSound false tx s h = h

  pub jsonrpc_puttxn-IsSound :
      (tx : Transaction) (b : Bool) (s : Node) → IsSound s → IsSound (jsonrpc_puttxn tx b s).1
  unfolding jsonrpc_puttxn
  jsonrpc_puttxn-IsSound tx b s h =
      broadcast_if-IsSound b tx _ (put_if_new-IsSound tx _ (note_received-IsSound s h))

  put_all-IsSound : (txns : List Transaction) (s : Node) → IsSound s → IsSound (put_all txns s)
  unfolding put_all
  put_all-IsSound [] s h = h
  put_all-IsSound (tx ∷ txns) s h =
      put_all-IsSound txns (jsonrpc_puttxn tx false s).1 (jsonrpc_puttxn-IsSound tx false s h)

  start_batch-IsSound :
      (txns : List Transaction) (b : Bool) (s : Node) → IsSound s → IsSound (start_batch txns b s)
  unfolding start_batch
  start_batch-IsSound txns true s h = IsSound-same s _ h refl refl refl refl refl
  start_batch-IsSound txns false s h = h

  pub jsonrpc_puttxn_batch-IsSound :
      (txns : List Transaction) (b : Bool) (s : Node)
      → IsSound s
      → IsSound (jsonrpc_puttxn_batch txns b s)
  unfolding jsonrpc_puttxn_batch
  jsonrpc_puttxn_batch-IsSound txns b s h =
      put_all-IsSound txns _ (start_batch-IsSound txns b _ (note_received-IsSound s h))
