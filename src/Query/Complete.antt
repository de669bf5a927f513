-- ===== src/Query/Complete.antt =====
-- In a sound state the listing of a key's outputs and its balance are complete.
use belcoin.Prelude.{
  append-nil, ℕ, ◌+◌, ◌≡◌, refl, sym, ap, ◌∙◌, true, false, Bool, leb, ◌&&◌, ◌==◌, ◌++◌, not, ◌*◌,
  if◌then◌else◌, Option, none, some, List, [], ◌∷◌, map, arith, get_elem?, inl, inr, ◌⊎◌,
  Option-cases,
}
use mathlib.Core.Path.{subst}
use belcoin.Tesseract.{Bytes, Output}
use belcoin.Exec.{Result, Raised, ok, err}
use belcoin.TxnWrapper.{TxnWrapper}
use belcoin.Index.{Index, Ref, ref_elem, refs_of, has_ref}
use belcoin.State.{Env, Node}
use belcoin.Mempool.Sound.{IsSound, owned_by}
use belcoin.Verify.{timeout_reached, refs_subset}
use belcoin.Config.{timeout_const}
use belcoin.Dict.{lookup}
use belcoin.Query.{
  UtxoGrpc, Balance, utxos_grpc_of, utxos_for_pubkey_grpc, add_output, balance_of, get_balance,
  no_balance, same_refs, keys_of, agree_on, index_eq,
}

-- The time of an output's owners has come.
abbrev pub is_due : ℕ → UtxoGrpc → Bool
is_due now u = leb (u.ts + u.output.htlc_timeout * timeout_const) now

-- Both owners are the key, one of them is, and the output can be claimed with the preimage by the key.
abbrev pub owns_whole : ℕ → Bytes → UtxoGrpc → Bool
owns_whole now p u = is_due now u && ((u.output.pubkey == p) && (u.output.pubkey2 == p))

abbrev pub owns_part : ℕ → Bytes → UtxoGrpc → Bool
owns_part now p u =
    is_due now u
    && (if u.output.pubkey == p then not (u.output.pubkey2 == p) else u.output.pubkey2 == p)

abbrev pub owns_htlc : ℕ → Bytes → UtxoGrpc → Bool
owns_htlc now p u = not (is_due now u) && (u.output.htlc_pubkey == p)

-- The amounts of the entries of a listing that pass a test
abbrev pub sum_where : (UtxoGrpc → Bool) → List UtxoGrpc → ℕ
sum_where t [] = 0
sum_where t (u ∷ us) = (if t u then u.output.amount else 0) + sum_where t us

-- What a listing adds to a balance
abbrev pub plus_listed : ℕ → Bytes → List UtxoGrpc → Balance → Balance
plus_listed now p us b = record {
  bal = b.bal + sum_where (owns_whole now p) us;
  bal_partial = b.bal_partial + sum_where (owns_part now p) us;
  bal_htlc = b.bal_htlc + sum_where (owns_htlc now p) us;
}

abbrev pub balance_from : ℕ → Bytes → List UtxoGrpc → Balance
balance_from now p us = record {
  bal = sum_where (owns_whole now p) us;
  bal_partial = sum_where (owns_part now p) us;
  bal_htlc = sum_where (owns_htlc now p) us;
}

refs_subset_more :
    (x : Ref) (xs ys : List Ref) → refs_subset xs ys ≡ true → refs_subset xs (x ∷ ys) ≡ true
refs_subset_more x [] ys h = refl
refs_subset_more x (z ∷ xs) ys h = ground (arith, refs_subset_more x xs ys)

refs_subset_refl : (xs : List Ref) → refs_subset xs xs ≡ true
refs_subset_refl [] = refl
refs_subset_refl (x ∷ xs) = ground (arith, refs_subset_more x xs xs (refs_subset_refl xs))

same_refs_refl : (x : Option (List Ref)) → same_refs x x ≡ true
same_refs_refl none = refl
same_refs_refl (some xs) = ground (arith, refs_subset_refl xs)

agree_on_refl : (ps : List Bytes) (a : Index) → agree_on ps a a ≡ true
agree_on_refl [] a = refl
agree_on_refl (p ∷ ps) a = ground (arith, same_refs_refl (lookup p a), agree_on_refl ps a)

index_eq_refl : (a : Index) → index_eq a a ≡ true
unfolding index_eq
index_eq_refl a = agree_on_refl (keys_of a ++ keys_of a) a

plus_listed-nil : (now : ℕ) (p : Bytes) (b : Balance) → plus_listed now p [] b ≡ b
plus_listed-nil now p b = ground arith

plus_listed-none :
    (now : ℕ) (p : Bytes) (us : List UtxoGrpc)
    → plus_listed now p us no_balance ≡ balance_from now p us
plus_listed-none now p us = ground arith

ok_eq : {A : Type 0} (a b : A) → ◌≡◌ {A = Result A} (ok a) (ok b) → a ≡ b
ok_eq a b e = cc

Result-cases : {A : Type 0} (r : Result A) → ((a : A) × (r ≡ ok a)) ⊎ ((x : Raised) × (r ≡ err x))
Result-cases (ok a) = inl (a, refl)
Result-cases (err x) = inr (x, refl)

module _ ⦃E : Env⦄ where
  open E use {crypto as C, wrappers as W}

  -- The output is stored.
  abbrev IsStored : W.Db → Ref → Type 0
  IsStored d r =
      (w : TxnWrapper) × (o : Output) × (W.get d r.0 ≡ some w)
      × (get_elem? w.txn.outputs r.1 ≡ some o)

  utxos_grpc_of-total :
      (d : W.Db) (rs : List Ref)
      → ((r : Ref) → ref_elem r rs ≡ true → IsStored d r)
      → (us : List UtxoGrpc) × (utxos_grpc_of d rs ≡ ok us) × (map (λ u. u.ref) us ≡ rs)
  unfolding utxos_grpc_of
  utxos_grpc_of-total d [] h = ([], refl, refl)
  utxos_grpc_of-total d ((k, i) ∷ rs) h =
      let (us, e, same) = utxos_grpc_of-total d rs (λ r in_rs. h r (ground (arith, in_rs))) in
      let (w, o, stored, listed) = h (k, i) (ground arith) in
      (
        record { ref = (k, i); output = o; ts = w.timestamp } ∷ us,
        ground (arith, e, stored, listed),
        ap (λ xs. (k, i) ∷ xs) same,
      )

  owned-IsStored :
      (s : Node) (p : Bytes) (r : Ref) → owned_by (W.get s.db r.0) p r.1 ≡ true → IsStored s.db r
  owned-IsStored s p (k, i) h = elim (Option-cases (W.get s.db k)) [
    | inl absent ↦ absurd (ground (arith, absent))
    | inr (w, stored) ↦ elim (Option-cases (get_elem? w.txn.outputs i)) [
      | inl outside ↦ absurd (ground (arith, stored, outside))
      | inr (o, listed) ↦ (w, o, stored, listed)
    ]
  ]

  refs-IsStored :
      (s : Node) (p : Bytes)
      → IsSound s
      → (r : Ref) → ref_elem r (refs_of s.pub_outs p) ≡ true
      → IsStored s.db r
  unfolding has_ref
  refs-IsStored s p h r e = owned-IsStored s p r (sym (h.indexed p r) ∙ e)

  -- In a sound state in which no pending transaction names the key, the listing returns, and it lists
  -- exactly the unspent outputs of the ledger that name the key.
  pub utxos_for_pubkey_grpc_complete :
      (s : Node) (p : Bytes)
      → IsSound s
      → refs_of s.pub_outs_pend p ≡ []
      → (us : List UtxoGrpc) × (utxos_for_pubkey_grpc s p ≡ ok us)
        × ((r : Ref) → ref_elem r (map (λ u. u.ref) us) ≡ owned_by (W.get s.db r.0) p r.1)
  unfolding utxos_for_pubkey_grpc utxos_grpc_of has_ref
  utxos_for_pubkey_grpc_complete s p h nothing =
      let (us, e, same) = utxos_grpc_of-total s.db (refs_of s.pub_outs p) (refs-IsStored s p h) in
      (us, ground (arith, e, nothing, append-nil us), λ r. ap (ref_elem r) same ∙ h.indexed p r)

  add_output-parts :
      (now : ℕ) (p : Bytes) (r : Ref) (w : TxnWrapper) (o : Output) (us : List UtxoGrpc)
      (b : Balance)
      → plus_listed now p us (add_output now p w o b)
        ≡ plus_listed now p (record { ref = r; output = o; ts = w.timestamp } ∷ us) b
  unfolding add_output timeout_reached
  add_output-parts now p r w o us b = ground arith

  balance_of-next :
      (now : ℕ) (p : Bytes) (d : W.Db) (k : Bytes) (i : ℕ) (rs : List Ref) (w : TxnWrapper)
      (o : Output) (b : Balance)
      → W.get d k ≡ some w
      → get_elem? w.txn.outputs i ≡ some o
      → balance_of now p d ((k, i) ∷ rs) b ≡ balance_of now p d rs (add_output now p w o b)
  unfolding balance_of
  balance_of-next now p d k i rs w o b stored there = ground (arith, stored, there)

  balance_of-listed :
      (now : ℕ) (p : Bytes) (d : W.Db) (rs : List Ref) (us : List UtxoGrpc) (b : Balance)
      → utxos_grpc_of d rs ≡ ok us
      → balance_of now p d rs b ≡ ok (plus_listed now p us b)
  unfolding balance_of utxos_grpc_of
  balance_of-listed now p d [] us b e =
      let q : [] ≡ us = ok_eq [] us e in
      subst (λ us. ok b ≡ ok (plus_listed now p us b)) q (ap ok (sym (plus_listed-nil now p b)))
  balance_of-listed now p d ((k, i) ∷ rs) us b e = elim (Option-cases (W.get d k)) [
    | inl absent ↦ absurd (ground (arith, e, absent))
    | inr (w, stored) ↦ elim (Option-cases (get_elem? w.txn.outputs i)) [
      | inl outside ↦ absurd (ground (arith, e, stored, outside))
      | inr (o, there) ↦ elim (Result-cases (utxos_grpc_of d rs)) [
        | inr (x, failed) ↦ absurd (ground (arith, e, stored, there, failed))
        | inl (vs, rest) ↦
            let q : record { ref = (k, i); output = o; ts = w.timestamp } ∷ vs ≡ us =
              ok_eq _ us (ground (arith, e, stored, there, rest)) in
            subst (λ us. balance_of now p d ((k, i) ∷ rs) b ≡ ok (plus_listed now p us b)) q
              (balance_of-next now p d k i rs w o b stored there
                ∙ balance_of-listed now p d rs vs (add_output now p w o b) rest
                ∙ ap ok (add_output-parts now p (k, i) w o vs b))
      ]
    ]
  ]

  -- In a sound state the balance of a key over the ledger's index is computed without an exception.
  -- Over either index it is the sum over the entries that `utxos_for_pubkey_grpc` lists from it, where
  -- those of the pending index can be listed and the two indexes differ: of the outputs
  -- whose HTLC has timed out, the first part counts those of which the key is both owners, the second
  -- those of which it is one; the third counts the outputs that have not timed out and name it as
  -- the key of the HTLC.
  pub get_balance-amounts :
      (s : Node) (p : Bytes) (vs : List UtxoGrpc)
      → IsSound s
      → index_eq s.pub_outs_pend s.pub_outs ≡ false
      → utxos_grpc_of s.pend (refs_of s.pub_outs_pend p) ≡ ok vs
      → (us : List UtxoGrpc) × (utxos_grpc_of s.db (refs_of s.pub_outs p) ≡ ok us)
        × (get_balance s p s.pub_outs ≡ ok (balance_from s.current_time p us))
        × (get_balance s p s.pub_outs_pend ≡ ok (balance_from s.current_time p vs))
  unfolding get_balance
  get_balance-amounts s p vs h differ listed =
      let (us, e, same) = utxos_grpc_of-total s.db (refs_of s.pub_outs p) (refs-IsStored s p h) in
      (
        us,
        e,
        rw (index_eq_refl s.pub_outs) (
            balance_of-listed s.current_time p s.db (refs_of s.pub_outs p) us no_balance e
            ∙ ap ok (plus_listed-none s.current_time p us)),
        rw differ (
            balance_of-listed s.current_time p s.pend (refs_of s.pub_outs_pend p) vs no_balance
              listed
            ∙ ap ok (plus_listed-none s.current_time p vs)),
      )
