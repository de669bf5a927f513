-- ===== src/Ledger/Sound.antt =====
-- The writes of the ledger keep a sound state, also where they stop with an exception.
use belcoin.Prelude.{
  zero, ◌<◌, none, ◌==◌, if◌then◌else◌, get_elem?, get_elem?-set, get_elem?-total, ℕ, suc, ◌≡◌,
  refl, sym, ap, ◌∙◌, ◌⊎◌, ltb, true, false, some, List, [], ◌∷◌, arith, length, map, set,
  length-set, inl, inr, Bool-cases, Option-cases,
}
use mathlib.Core.Path.{subst}
use belcoin.Tesseract.{Bytes, Input, Output, Transaction}
use belcoin.Exec.{Result, ok, err, for_each, modify, ◌>>=◌}
use belcoin.Index.{Ref, has_ref}
use belcoin.Index.Laws.{has_ref-del_out, has_ref-add_txn}
use belcoin.Ledger.Spend.{spend-eq}
use belcoin.Exec.Keeps.{Keeps, Keeps-bind, Keeps-modify, Keeps-for_each}
use belcoin.TxnWrapper.{TxnWrapper, wrap}
use belcoin.State.{Env, Node}
use belcoin.Mempool.Sound.{IsSound, owned_by}
use belcoin.Ledger.{
  spend_output, spend, store, write_txn_to_db, store_pending, write_txn_to_pend, del_from_pending,
}

pub length-map : (os : List Output) → length (map (λ _. true) os) ≡ length os
length-map [] = refl
length-map (o ∷ os) = ap suc (length-map os)

-- A transaction's outputs are all unspent when it is wrapped.
pub flags_lem :
    (os : List Output) (j : ℕ)
    → get_elem? (map (λ _. true) os) j ≡ elim (get_elem? os j) [ none ↦ none | some o ↦ some true ]
flags_lem [] j = refl
flags_lem (o ∷ os) zero = refl
flags_lem (o ∷ os) (suc j) = flags_lem os j

module _ ⦃E : Env⦄ where
  open E use {crypto as C, wrappers as W}

  -- A write to the ledger of a wrapper that fits its key, with the change of the index that fits it.
  put-IsSound :
      (k : Bytes) (w : TxnWrapper) (s s' : Node)
      → IsSound s
      → w.txn.txid ≡ k
      → length w.utxos ≡ length w.txn.outputs
      → s' ≡ record s { db = W.put s.db k w; pub_outs = s'.pub_outs }
      → ((p : Bytes) (r : Ref)
          → has_ref s'.pub_outs p r
            ≡ (if k == r.0 then owned_by (some w) p r.1 else has_ref s.pub_outs p r))
      → IsSound s'
  put-IsSound k w s s' h name size e listed = subst IsSound (sym e) (record {
    keyed = λ j v g. ground (arith, W.get-put s.db k j w, h.keyed j v);
    sized = λ j v g. ground (arith, W.get-put s.db k j w, h.sized j v);
    pend_keyed = h.pend_keyed;
    pool_keyed = h.pool_keyed;
    pooled = h.pooled;
    once = h.once;
    indexed = λ p r. ground (arith, W.get-put s.db k r.0 w, h.indexed p r, listed p r);
  })

  spend_output-IsSound :
      (inp : Input) (w : TxnWrapper) (o : Output) (s : Node)
      → IsSound s
      → W.get s.db inp.txid ≡ some w
      → get_elem? w.txn.outputs inp.index ≡ some o
      → inp.index < length w.utxos
      → IsSound (spend_output inp w o s)
  unfolding spend_output
  spend_output-IsSound inp w o s h stored listed inside =
      put-IsSound inp.txid (record w { utxos = set w.utxos inp.index false }) s
        (spend_output inp w o s) h (h.keyed inp.txid w stored)
        (length-set w.utxos inp.index false ∙ h.sized inp.txid w stored) refl
        (λ p (k, j). ground (
          arith,
          has_ref-del_out (C.get_pubkeys o) p (inp.txid, inp.index) (k, j) s.pub_outs,
          get_elem?-set w.utxos inp.index j false inside,
          h.indexed p (k, j),
          stored,
          listed,
        ))

  -- A round of the loop over the inputs either changes nothing or spends an output.
  spend_cases :
      (inp : Input) (s : Node)
      → IsSound s
      → ((spend inp s).1 ≡ s)
        ⊎ ((w : TxnWrapper) × (o : Output) × (W.get s.db inp.txid ≡ some w)
            × (get_elem? w.txn.outputs inp.index ≡ some o)
            × (inp.index < length w.utxos)
            × ((spend inp s).1 ≡ spend_output inp w o s))
  unfolding spend
  spend_cases inp s h = elim (Option-cases (W.get s.db inp.txid)) [
    | inl absent ↦ inl (ground (arith, absent))
    | inr (w, stored) ↦ elim (Bool-cases (ltb inp.index (length w.utxos))) [
      | inl inside ↦
          let size = h.sized inp.txid w stored in
          let (o, listed) = get_elem?-total w.txn.outputs inp.index (ground (arith, size)) in
          inr (
            w,
            o,
            stored,
            listed,
            ground (arith, inside),
            ap (λ q. q.1) (spend-eq inp w o s stored listed (ground (arith, inside))),
          )
      | inr outside ↦ inl (ground (arith, stored, outside))
    ]
  ]

  spend-IsSound : (inp : Input) → Keeps IsSound (spend inp)
  spend-IsSound inp = record {
    at = λ s h. elim (spend_cases inp s h) [
      | inl same ↦ subst IsSound (sym same) h
      | inr (w, o, stored, listed, inside, e) ↦
          subst IsSound (sym e) (spend_output-IsSound inp w o s h stored listed inside)
    ];
  }

  -- A sound state whose ledger lacks a transaction.
  abbrev LacksSound : Bytes → Node → Type 0
  LacksSound k s = IsSound s × (W.get s.db k ≡ none)

  spend_output-lacks :
      (k : Bytes) (inp : Input) (w : TxnWrapper) (o : Output) (s : Node)
      → W.get s.db inp.txid ≡ some w
      → W.get s.db k ≡ none
      → W.get (spend_output inp w o s).db k ≡ none
  unfolding spend_output
  spend_output-lacks k inp w o s stored n =
      ground (
        arith,
        W.get-put s.db inp.txid k (record w { utxos = set w.utxos inp.index false }),
        stored,
      )

  spend-LacksSound : (k : Bytes) (inp : Input) → Keeps (LacksSound k) (spend inp)
  spend-LacksSound k inp = record {
    at = λ s (h, n). elim (spend_cases inp s h) [
      | inl same ↦ subst (LacksSound k) (sym same) (h, n)
      | inr (w, o, stored, listed, inside, e) ↦ subst (LacksSound k) (sym e) (
        spend_output-IsSound inp w o s h stored listed inside,
        spend_output-lacks k inp w o s stored n,
      )
    ];
  }

  store-IsSound :
      (txn : Transaction) (ts : ℕ) (s : Node)
      → IsSound s
      → W.get s.db txn.txid ≡ none
      → IsSound (store txn ts s)
  unfolding store
  store-IsSound txn ts s h fresh =
      put-IsSound txn.txid (wrap txn ts) s (store txn ts s) h refl (length-map txn.outputs) refl
        (λ p (k, j). ground (
          arith,
          has_ref-add_txn C.get_pubkeys txn p (k, j) s.pub_outs,
          flags_lem txn.outputs j,
          h.indexed p (k, j),
          fresh,
        ))

  pub write_txn_to_db-IsSound :
      (txn : Transaction) (ts : ℕ) (s : Node)
      → IsSound s
      → W.get s.db txn.txid ≡ none
      → IsSound (write_txn_to_db txn ts s).1
  unfolding write_txn_to_db
  write_txn_to_db-IsSound txn ts s h fresh =
      stored_after (for_each txn.inputs spend s).0 (for_each txn.inputs spend s).1
        ((Keeps-for_each txn.inputs spend (spend-LacksSound txn.txid)).at s (h, fresh))
    where
      stored_after :
          (r : Result (Unit {0})) (s' : Node)
          → LacksSound txn.txid s'
          → IsSound (◌>>=◌ (λ (s : Node). (r, s')) (λ _. modify (store txn ts)) s).1
      stored_after (ok _) s' (h', n) = store-IsSound txn ts s' h' n
      stored_after (err e) s' (h', n) = h'

  store_pending-IsSound :
      (txn : Transaction) (ts : ℕ) (s : Node) → IsSound s → IsSound (store_pending txn ts s)
  unfolding store_pending
  store_pending-IsSound txn ts s h = record {
    keyed = h.keyed;
    sized = h.sized;
    pend_keyed =
        λ k w e. ground (arith, W.get-put s.pend txn.txid k (wrap txn ts), h.pend_keyed k w);
    pool_keyed = h.pool_keyed;
    pooled = h.pooled;
    once = h.once;
    indexed = h.indexed;
  }

  pub write_txn_to_pend-IsSound :
      (txn : Transaction) (ts : ℕ) → Keeps IsSound (write_txn_to_pend txn ts)
  unfolding write_txn_to_pend
  write_txn_to_pend-IsSound txn ts =
      Keeps-bind _ _ (Keeps-modify (store_pending txn ts) (store_pending-IsSound txn ts))
        (λ _. Keeps-for_each txn.inputs spend spend-IsSound)

  pub del_from_pending-IsSound :
      (tx : Transaction) (s : Node) → IsSound s → IsSound (del_from_pending tx s)
  unfolding del_from_pending
  del_from_pending-IsSound tx s h = record {
    keyed = h.keyed;
    sized = h.sized;
    pend_keyed = λ k w e. ground (arith, W.get-delete s.pend tx.txid k, h.pend_keyed k w);
    pool_keyed = h.pool_keyed;
    pooled = h.pooled;
    once = h.once;
    indexed = h.indexed;
  }
