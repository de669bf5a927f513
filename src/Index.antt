-- ===== src/Index.antt =====
-- The balance index of belcoin_node/storage.py: a dict from a public key to the set of the outputs
-- (txid, index) that name the key. A set is a list without repetition.
pub mod Laws
use belcoin.Prelude.{
  ℕ, suc, Bool, false, ◌&&◌, ◌||◌, none, some, List, [], ◌∷◌, ◌==◌, if◌then◌else◌,
}
use belcoin.Tesseract.{Bytes, Output, Transaction}
use belcoin.Dict.{Dict, lookup, insert}

abbrev pub Ref : Type 0
Ref = Bytes × ℕ

abbrev pub ref_eq : Ref → Ref → Bool
ref_eq (a, i) (b, j) = (a == b) && (i == j)

abbrev pub ref_elem : Ref → List Ref → Bool
ref_elem r [] = false
ref_elem r (x ∷ xs) = ref_eq x r || ref_elem r xs

-- `s.add(r)`
abbrev pub ref_add : Ref → List Ref → List Ref
ref_add r xs = if ref_elem r xs then xs else r ∷ xs

-- `s.remove(r)`, where the KeyError of a missing element is caught and ignored
abbrev pub ref_remove : Ref → List Ref → List Ref
ref_remove r [] = []
ref_remove r (x ∷ xs) = if ref_eq x r then ref_remove r xs else x ∷ ref_remove r xs

abbrev pub Index : Type 0
Index = Dict (List Ref)

-- The outputs listed for a key; none for a key that is not there.
abbrev pub refs_of : Index → Bytes → List Ref
refs_of index p = elim (lookup p index) [ none ↦ [] | some rs ↦ rs ]

-- Whether the index lists the output for the key.
unfoldable pub has_ref : Index → Bytes → Ref → Bool
has_ref index p r = ref_elem r (refs_of index p)

-- The body of the inner loop of `add_txn_to_balance_index`.
unfoldable pub add_ref : Bytes → Ref → Index → Index
add_ref p r index = elim (lookup p index) [
  | some rs ↦ insert p (ref_add r rs) index
  | none ↦ insert p (r ∷ []) index
]

unfoldable pub add_refs : List Bytes → Ref → Index → Index
add_refs [] r index = index
add_refs (p ∷ ps) r index = add_refs ps r (add_ref p r index)

-- The body of the loop of `del_out_from_balance_index`.
unfoldable pub del_ref : Bytes → Ref → Index → Index
del_ref p r index = elim (lookup p index) [
  | none ↦ index
  | some rs ↦ insert p (ref_remove r rs) index
]

-- `del_out_from_balance_index(pubkeys, txid, i, index)`, with the pair of `txid` and `i` as `r`
unfoldable pub del_out_from_balance_index : List Bytes → Ref → Index → Index
del_out_from_balance_index [] r index = index
del_out_from_balance_index (p ∷ ps) r index = del_out_from_balance_index ps r (del_ref p r index)

module _ (get_pubkeys : Output → List Bytes) where
  -- the outer loop of `add_txn_to_balance_index`, from output `i` on
  unfoldable pub add_outputs : Bytes → ℕ → List Output → Index → Index
  add_outputs txid i [] index = index
  add_outputs txid i (o ∷ os) index =
      add_outputs txid (suc i) os (add_refs (get_pubkeys o) (txid, i) index)

  unfoldable pub add_txn_to_balance_index : Transaction → Index → Index
  add_txn_to_balance_index txn = add_outputs txn.txid 0 txn.outputs

  -- the loop of `del_from_pending` over the outputs, from output `i` on
  unfoldable pub del_outputs : Bytes → ℕ → List Output → Index → Index
  del_outputs txid i [] index = index
  del_outputs txid i (o ∷ os) index =
      del_outputs txid (suc i) os (del_out_from_balance_index (get_pubkeys o) (txid, i) index)
