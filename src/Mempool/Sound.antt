-- ===== src/Mempool/Sound.antt =====
-- The well-formedness of a node's state, and that the operations of the mempool keep it.
use belcoin.Prelude.{
  false, Bool, Option, none, some, ℕ, ◌&&◌, get_elem?, ◌≡◌, ◌≢◌, true, none, some, [], ◌∷◌, ◌++◌,
  arith, length, elem, Once, elem-append, elem-remove_first, remove_first-Once, append-Once,
}
use belcoin.Tesseract.{Bytes, Transaction}
use belcoin.TxnWrapper.{TxnWrapper}
use belcoin.Index.{Ref, has_ref}
use belcoin.Index.Laws.{names}
use belcoin.State.{Env, Node}
use belcoin.Mempool.{add_to_mempool, remove_from_mempool, remove_invalid_txn_from_mempool}

module _ ⦃E : Env⦄ where
  open E use {crypto as C, wrappers as W, transactions as T}

  -- Whether the output is stored and unspent, and names the key.
  abbrev pub owned_by : Option TxnWrapper → Bytes → ℕ → Bool
  owned_by none p i = false
  owned_by (some w) p i =
      (elim (get_elem? w.utxos i) [ none ↦ false | some unspent ↦ unspent ])
      && names C.get_pubkeys p (get_elem? w.txn.outputs i)

  -- The databases hold each transaction under its own hash, with one flag for each output; the list
  -- of the mempool names no transaction twice, and only such as are in the mempool; the balance index
  -- lists for each key exactly the unspent outputs of the ledger that name it.
  pub record IsSound (s : Node) : Type 0 where
    pub keyed : (k : Bytes) (w : TxnWrapper) → W.get s.db k ≡ some w → w.txn.txid ≡ k
    pub sized :
        (k : Bytes) (w : TxnWrapper) → W.get s.db k ≡ some w → length w.utxos ≡ length w.txn.outputs
    pub pend_keyed : (k : Bytes) (w : TxnWrapper) → W.get s.pend k ≡ some w → w.txn.txid ≡ k
    pub pool_keyed : (k : Bytes) (t : Transaction) → T.get s.mempool k ≡ some t → t.txid ≡ k
    pub pooled : (k : Bytes) → elem k s.mempool_list ≡ true → T.get s.mempool k ≢ none
    pub once : Once s.mempool_list
    pub indexed : (p : Bytes) (r : Ref) → has_ref s.pub_outs p r ≡ owned_by (W.get s.db r.0) p r.1

  pub remove_from_mempool-IsSound :
      (txid : Bytes) (s : Node) → IsSound s → IsSound (remove_from_mempool txid s)
  unfolding remove_from_mempool
  remove_from_mempool-IsSound txid s h = record {
    keyed = h.keyed;
    sized = h.sized;
    pend_keyed = h.pend_keyed;
    pool_keyed = λ k t e. ground (arith, T.get-delete s.mempool txid k, h.pool_keyed k t);
    pooled = λ k e. ground (
      arith,
      T.get-delete s.mempool txid k,
      elem-remove_first txid k s.mempool_list h.once,
      h.pooled k,
    );
    once = remove_first-Once txid s.mempool_list h.once;
    indexed = h.indexed;
  }

  pub remove_invalid-IsSound :
      (txid : Bytes) (s : Node) → IsSound s → IsSound (remove_invalid_txn_from_mempool txid s)
  unfolding remove_invalid_txn_from_mempool
  remove_invalid-IsSound txid s h =
      remove_from_mempool-IsSound txid (record s { invalid_txns = s.invalid_txns ++ (txid ∷ []) })
        (record {
          keyed = h.keyed;
          sized = h.sized;
          pend_keyed = h.pend_keyed;
          pool_keyed = h.pool_keyed;
          pooled = h.pooled;
          once = h.once;
          indexed = h.indexed;
        })

  pub add_to_mempool-IsSound :
      (txn : Transaction) (s : Node)
      → IsSound s
      → T.get s.mempool txn.txid ≡ none
      → IsSound (add_to_mempool txn s)
  unfolding add_to_mempool
  add_to_mempool-IsSound txn s h new = record {
    keyed = h.keyed;
    sized = h.sized;
    pend_keyed = h.pend_keyed;
    pool_keyed = λ k t e. ground (arith, T.get-put s.mempool txn.txid k txn, h.pool_keyed k t);
    pooled = λ k e. ground (
      arith,
      T.get-put s.mempool txn.txid k txn,
      elem-append k s.mempool_list (txn.txid ∷ []),
      h.pooled k,
    );
    once = append-Once txn.txid s.mempool_list h.once (ground (arith, h.pooled txn.txid, new));
    indexed = h.indexed;
  }
