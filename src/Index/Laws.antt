-- ===== src/Index/Laws.antt =====
-- Which outputs the balance index of belcoin_node/storage.py lists after each of its operations.
use belcoin.Prelude.{
  ℕ, ◌≡◌, refl, Bool, true, false, not, ◌&&◌, ◌||◌, none, some, List, [], ◌∷◌, arith, ◌==◌, ltb,
  if◌then◌else◌, elem, get_elem?, suc, zero, Option, Option-cases, inl, inr,
}
use belcoin.Tesseract.{Bytes, Output, Transaction}
use belcoin.Dict.{lookup, lookup-insert}
use belcoin.Index.{
  Ref, ref_eq, ref_elem, ref_add, ref_remove, Index, has_ref, add_ref, add_refs, del_ref,
  del_out_from_balance_index, add_outputs, add_txn_to_balance_index, del_outputs,
}

elem-add : (x r : Ref) (rs : List Ref) → ref_elem r (ref_add x rs) ≡ (ref_eq x r || ref_elem r rs)
elem-add x r rs = ground (arith, elem_same x r rs)
  where
    elem_same :
        (x r : Ref) (rs : List Ref)
        → ref_elem x rs ≡ true
        → ref_eq x r ≡ true
        → ref_elem r rs ≡ true
    elem_same x r [] h e = cc
    elem_same (a, i) (b, j) ((c, k) ∷ ys) h e = ground (arith, elem_same (a, i) (b, j) ys)

elem-remove :
    (x r : Ref) (rs : List Ref) → ref_elem r (ref_remove x rs) ≡ (not (ref_eq x r) && ref_elem r rs)
elem-remove x r [] = ground arith
elem-remove (a, i) (b, j) ((c, k) ∷ rs) = ground (arith, elem-remove (a, i) (b, j) rs)

has_ref-add_ref :
    (q p : Bytes) (x r : Ref) (index : Index)
    → has_ref (add_ref q x index) p r ≡ (((q == p) && ref_eq x r) || has_ref index p r)
unfolding has_ref add_ref
has_ref-add_ref q p x r index = elim (Option-cases (lookup q index)) [
  | inl new ↦ ground (arith, lookup-insert q p (x ∷ []) index, new)
  | inr (rs, old) ↦ ground (arith, lookup-insert q p (ref_add x rs) index, old, elem-add x r rs)
]

has_ref-del_ref :
    (q p : Bytes) (x r : Ref) (index : Index)
    → has_ref (del_ref q x index) p r ≡ (not ((q == p) && ref_eq x r) && has_ref index p r)
unfolding has_ref del_ref
has_ref-del_ref q p x r index = elim (Option-cases (lookup q index)) [
  | inl new ↦ ground (arith, new)
  | inr (rs, old) ↦
      ground (arith, lookup-insert q p (ref_remove x rs) index, old, elem-remove x r rs)
]

has_ref-add_refs :
    (qs : List Bytes) (p : Bytes) (x r : Ref) (index : Index)
    → has_ref (add_refs qs x index) p r ≡ ((elem p qs && ref_eq x r) || has_ref index p r)
unfolding add_refs
has_ref-add_refs [] p x r index = refl
has_ref-add_refs (q ∷ qs) p x r index =
    ground (arith, has_ref-add_refs qs p x r (add_ref q x index), has_ref-add_ref q p x r index)

-- Taking an output out of the index for some keys: it is listed for none of them any more, and
-- nothing else changes.
pub has_ref-del_out :
    (qs : List Bytes) (p : Bytes) (x r : Ref) (index : Index)
    → has_ref (del_out_from_balance_index qs x index) p r
      ≡ (not (elem p qs && ref_eq x r) && has_ref index p r)
unfolding del_out_from_balance_index
has_ref-del_out [] p x r index = refl
has_ref-del_out (q ∷ qs) p x r index =
    ground (arith, has_ref-del_out qs p x r (del_ref q x index), has_ref-del_ref q p x r index)

module _ (get_pubkeys : Output → List Bytes) where
  -- Whether an output names the key.
  abbrev pub names : Bytes → Option Output → Bool
  names p none = false
  names p (some o) = elem p (get_pubkeys o)

  -- The output at an index, in a list whose first output has the index `i`.
  abbrev output_from : ℕ → List Output → ℕ → Option Output
  output_from i [] j = none
  output_from i (o ∷ os) j = if i == j then some o else output_from (suc i) os j

  output_from-suc :
      (i j : ℕ) (os : List Output) → output_from (suc i) os (suc j) ≡ output_from i os j
  output_from-suc i j [] = refl
  output_from-suc i j (o ∷ os) = ground (arith, output_from-suc (suc i) j os)

  output_from-after : (i : ℕ) (os : List Output) → output_from (suc i) os 0 ≡ none
  output_from-after i [] = refl
  output_from-after i (o ∷ os) = ground (arith, output_from-after (suc i) os)

  output_from-get_elem? : (os : List Output) (j : ℕ) → output_from 0 os j ≡ get_elem? os j
  output_from-get_elem? [] j = refl
  output_from-get_elem? (o ∷ os) zero = refl
  output_from-get_elem? (o ∷ os) (suc j) =
      ground (arith, output_from-suc 0 j os, output_from-get_elem? os j)

  output_from-below : (i j : ℕ) (os : List Output) → ltb j i ≡ true → output_from i os j ≡ none
  output_from-below i j [] h = refl
  output_from-below i j (o ∷ os) h = ground (arith, output_from-below (suc i) j os)

  has_ref-add_outputs :
      (txid p : Bytes) (i : ℕ) (os : List Output) (r : Ref) (index : Index)
      → has_ref (add_outputs get_pubkeys txid i os index) p r
        ≡ (((txid == r.0) && names p (output_from i os r.1)) || has_ref index p r)
  unfolding add_outputs
  has_ref-add_outputs txid p i [] (k, j) index = ground arith
  has_ref-add_outputs txid p i (o ∷ os) (k, j) index = ground (
    arith,
    has_ref-add_outputs txid p (suc i) os (k, j) (add_refs (get_pubkeys o) (txid, i) index),
    has_ref-add_refs (get_pubkeys o) p (txid, i) (k, j) index,
    output_from-below (suc i) j os,
  )

  -- Adding a transaction lists each of its outputs for the keys that it names, and changes nothing
  -- else.
  pub has_ref-add_txn :
      (txn : Transaction) (p : Bytes) (r : Ref) (index : Index)
      → has_ref (add_txn_to_balance_index get_pubkeys txn index) p r
        ≡ (((txn.txid == r.0) && names p (get_elem? txn.outputs r.1)) || has_ref index p r)
  unfolding add_txn_to_balance_index
  has_ref-add_txn txn p r index = ground (
    arith,
    has_ref-add_outputs txn.txid p 0 txn.outputs r index,
    output_from-get_elem? txn.outputs r.1,
  )

  has_ref-del_outputs :
      (txid p : Bytes) (i : ℕ) (os : List Output) (r : Ref) (index : Index)
      → has_ref (del_outputs get_pubkeys txid i os index) p r
        ≡ (not ((txid == r.0) && names p (output_from i os r.1)) && has_ref index p r)
  unfolding del_outputs
  has_ref-del_outputs txid p i [] (k, j) index = ground arith
  has_ref-del_outputs txid p i (o ∷ os) (k, j) index = ground (
    arith,
    has_ref-del_outputs txid p (suc i) os (k, j)
        (del_out_from_balance_index (get_pubkeys o) (txid, i) index),
    has_ref-del_out (get_pubkeys o) p (txid, i) (k, j) index,
    output_from-below (suc i) j os,
  )

  -- What `del_from_pending` does to the index undoes what the pending transaction had added: every key
  -- has the outputs of the other transactions that it had, and none of this one.
  pub del_outputs-add_txn :
      (txn : Transaction) (p : Bytes) (r : Ref) (index : Index)
      → has_ref
          (del_outputs get_pubkeys txn.txid 0 txn.outputs
            (add_txn_to_balance_index get_pubkeys txn index))
          p
          r
        ≡ (not ((txn.txid == r.0) && names p (get_elem? txn.outputs r.1)) && has_ref index p r)
  del_outputs-add_txn txn p r index = ground (
    arith,
    has_ref-del_outputs txn.txid p 0 txn.outputs r (add_txn_to_balance_index get_pubkeys txn index),
    has_ref-add_txn txn p r index,
    output_from-get_elem? txn.outputs r.1,
  )
