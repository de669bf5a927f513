-- ===== src/Start/Sound.antt =====
-- When a node that starts is in a sound state, and what its index lists.
use belcoin.Prelude.{
  ℕ, ◌≡◌, refl, ap, ◌∙◌, sym, Bool, true, false, ◌||◌, Option, none, some, List, [], ◌∷◌, arith,
  length, map, get_elem?, inl, inr, Option-cases,
}
use belcoin.Tesseract.{Bytes, Transaction}
use belcoin.TxnWrapper.{TxnWrapper, wrap}
use belcoin.Dict.{Dict, lookup, Distinct}
use belcoin.Index.{Ref, Index, has_ref, add_txn_to_balance_index}
use belcoin.Index.Laws.{names, has_ref-add_txn}
use belcoin.State.{Env}
use belcoin.Mempool.Sound.{IsSound}
use belcoin.Ledger.Sound.{length-map, flags_lem}
use belcoin.Start.{put_genesis, index_all, init}

module _ ⦃E : Env⦄ where
  open E use {crypto as C, wrappers as W, transactions as T}

  -- Whether the output is stored, spent or not, and names the key.
  abbrev pub held_by : Option TxnWrapper → Bytes → ℕ → Bool
  held_by none p i = false
  held_by (some w) p i = names C.get_pubkeys p (get_elem? w.txn.outputs i)

  -- Each transaction stands under its own hash.
  abbrev IsKeyed : Dict TxnWrapper → Type 0
  IsKeyed d = (k : Bytes) (w : TxnWrapper) → lookup k d ≡ some w → w.txn.txid ≡ k

  has_ref-index_all :
      (d : Dict TxnWrapper) (p : Bytes) (r : Ref) (index : Index)
      → Distinct d
      → IsKeyed d
      → has_ref (index_all d index) p r ≡ (held_by (lookup r.0 d) p r.1 || has_ref index p r)
  unfolding index_all
  has_ref-index_all [] p r index h keyed = refl
  has_ref-index_all ((k, w) ∷ d) p (j, i) index h keyed = ground (
    arith,
    has_ref-index_all d p (j, i) (add_txn_to_balance_index C.get_pubkeys w.txn index) h.1
        (λ k' w' e. keyed k' w' (ground (arith, h.0, e))),
    has_ref-add_txn C.get_pubkeys w.txn p (j, i) index,
    keyed k w,
    h.0,
  )

  -- The index that a node builds when it starts lists every output of its ledger, spent or not.
  pub has_ref-init :
      (coinbase : List Transaction) (db pend : W.Db) (mempool : T.Db) (p : Bytes) (r : Ref)
      → ((k : Bytes) (w : TxnWrapper) → W.get (put_genesis coinbase db) k ≡ some w → w.txn.txid ≡ k)
      → has_ref (init coinbase db pend mempool).pub_outs p r
        ≡ held_by (W.get (put_genesis coinbase db) r.0) p r.1
  unfolding init has_ref
  has_ref-init coinbase db pend mempool p r keyed =
      let d = put_genesis coinbase db in
      ground (
        arith,
        has_ref-index_all (W.entries d) p r [] (W.entries-Distinct d)
            (λ k w e. keyed k w (sym (W.lookup-entries d k) ∙ e)),
        W.lookup-entries d r.0,
      )

  -- A ledger in which nothing is spent yet.
  pub record IsUnspentDb (d : W.Db) : Type 0 where
    pub keyed : (k : Bytes) (w : TxnWrapper) → W.get d k ≡ some w → w.txn.txid ≡ k
    pub unspent :
        (k : Bytes) (w : TxnWrapper) → W.get d k ≡ some w → w.utxos ≡ map (λ _. true) w.txn.outputs

  put_genesis-IsUnspentDb :
      (coinbase : List Transaction) (d : W.Db)
      → IsUnspentDb d
      → IsUnspentDb (put_genesis coinbase d)
  unfolding put_genesis
  put_genesis-IsUnspentDb [] d h = h
  put_genesis-IsUnspentDb (txn ∷ coinbase) d h = elim (Option-cases (W.get d txn.txid)) [
    | inl new ↦ rw new (
        put_genesis-IsUnspentDb coinbase (W.put d txn.txid (wrap txn 0)) (record {
          keyed = λ k w e. ground (arith, W.get-put d txn.txid k (wrap txn 0), h.keyed k w);
          unspent = λ k w e. ground (arith, W.get-put d txn.txid k (wrap txn 0), h.unspent k w);
        }))
    | inr (w, old) ↦ rw old (put_genesis-IsUnspentDb coinbase d h)
  ]

  -- A node that starts on a ledger in which nothing is spent, the empty one for instance, is in a
  -- sound state: its ledger has the genesis transactions too, and its index lists exactly the unspent
  -- outputs.
  pub init-IsSound :
      (coinbase : List Transaction) (db pend : W.Db) (mempool : T.Db)
      → IsUnspentDb db
      → ((k : Bytes) (w : TxnWrapper) → W.get pend k ≡ some w → w.txn.txid ≡ k)
      → ((k : Bytes) (t : Transaction) → T.get mempool k ≡ some t → t.txid ≡ k)
      → IsSound (init coinbase db pend mempool)
  unfolding init
  init-IsSound coinbase db pend mempool h pend_keyed pool_keyed =
      let g = put_genesis-IsUnspentDb coinbase db h in
      let all : (p : Bytes) (r : Ref) → _ =
        λ p r. has_ref-init coinbase db pend mempool p r g.keyed in
      record {
        keyed = g.keyed;
        sized = λ k w e. ap length (g.unspent k w e) ∙ length-map w.txn.outputs;
        pend_keyed = pend_keyed;
        pool_keyed = pool_keyed;
        pooled = λ k e. cc;
        once = tt;
        indexed = λ p r. elim (Option-cases (W.get (put_genesis coinbase db) r.0)) [
          | inl absent ↦ ground (arith, all p r, absent)
          | inr (w, stored) ↦
              ground (arith, all p r, stored, g.unspent r.0 w stored, flags_lem w.txn.outputs r.1)
        ];
      }
