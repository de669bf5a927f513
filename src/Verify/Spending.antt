-- ===== src/Verify/Spending.antt =====
-- An output that an accepted transaction spends is not spent again.
use belcoin.Prelude.{
  ℕ, ◌≡◌, ◌≢◌, ap, ◌∙◌, true, false, none, some, List, [], ◌∷◌, arith, ◌==◌, if◌then◌else◌, All, In,
  All-In, inl, inr,
}
use belcoin.Tesseract.{Bytes, Input, Transaction}
use belcoin.Exec.{Result, ok, modify, ◌>>=◌}
use belcoin.TxnWrapper.{wrap}
use belcoin.Index.{Ref, ref_elem}
use belcoin.State.{Env, Node}
use belcoin.Ledger.{comparable_input, input_refs, store, write_txn_to_db}
use belcoin.Ledger.Spend.{IsPresent, unspent, bit_of, for_each-spend}
use belcoin.Verify.{no_match, check_pend_replacement, verify_txn}
use belcoin.Verify.Spendable.{IsSpendable}
use belcoin.Verify.Accepts.{verify_txn-accepts_iff}

module _ ⦃E : Env⦄ where
  open E use {crypto as C, wrappers as W}

  -- A write whose inputs are all there ends without an exception. It stores the transaction with all
  -- its outputs unspent, spends exactly the outputs that its inputs name, and leaves the flag of every
  -- other output of the ledger as it was.
  pub write_txn_to_db-unspent :
      (txn : Transaction) (ts : ℕ) (s : Node)
      → All (IsPresent s) txn.inputs
      → ((write_txn_to_db txn ts s).0 ≡ ok tt)
        × ((r : Ref)
            → unspent (write_txn_to_db txn ts s).1 r ≡ (
                if txn.txid == r.0
                then bit_of (some (wrap txn ts)) r.1
                else if ref_elem r (input_refs txn.inputs)
                then some false
                else unspent s r))
  unfolding write_txn_to_db store
  write_txn_to_db-unspent txn ts s h =
      let (s', e, spent) = for_each-spend txn.inputs s h in
      (
        ground (arith, e),
        λ r.
            ap
              (λ (q : Result (Unit {0}) × Node).
                unspent (◌>>=◌ (λ (s : Node). q) (λ _. modify (store txn ts)) s).1 r)
              e
            ∙ ground (arith, spent.bits r, W.get-put s'.db txn.txid r.0 (wrap txn ts)),
      )

  not_fresh :
      (s : Node) (k : Bytes) (i : ℕ) (inps : List Input)
      → All (IsPresent s) inps
      → ref_elem (k, i) (input_refs inps) ≡ true
      → W.get s.db k ≢ none
  not_fresh s k i [] h e = λ n. cc
  not_fresh s k i (inp ∷ inps) ((w, o, stored, listed, inside), hs) e =
      λ n. ground (arith, stored, not_fresh s k i inps hs)

  -- A spendable input that no pending transaction stands in for spends an unspent output.
  pub spendable-unspent :
      (txn : Transaction) (s : Node) (inp : Input)
      → inp.txid ≢ C.no_hash
      → check_pend_replacement txn s ≡ no_match
      → IsSpendable true txn s inp
      → unspent s (comparable_input inp) ≡ some true
  spendable-unspent txn s inp real free (inl dummy) = absurd (real dummy)
  spendable-unspent txn s inp real free (inr (_, (w, o, stored, listed, u, inl (_, flag)))) =
      ground (arith, stored)
  spendable-unspent txn s inp real free (inr (_, (w, o, stored, listed, u, inr (tx, other)))) =
      absurd (cc)

  -- Once a new transaction has been written to the ledger with its inputs all there, no transaction
  -- that names one of the outputs it spends is verified, unless a pending transaction with the same
  -- inputs is found for it.
  pub no_double_spend :
      (txn : Transaction) (ts : ℕ) (s : Node) (again : Transaction) (inp : Input)
      → W.get s.db txn.txid ≡ none
      → All (IsPresent s) txn.inputs
      → ref_elem (comparable_input inp) (input_refs txn.inputs) ≡ true
      → In inp again.inputs
      → inp.txid ≢ C.no_hash
      → check_pend_replacement again (write_txn_to_db txn ts s).1 ≡ no_match
      → (verify_txn true again (write_txn_to_db txn ts s).1).0 ≢ ok true
  no_double_spend txn ts s again inp new h named i real free = λ v.
      let s' = (write_txn_to_db txn ts s).1 in
      let a = (verify_txn-accepts_iff true again s').0 v in
      let u =
        spendable-unspent again s' inp real free
          (All-In (IsSpendable true again s') inp again.inputs a.spendable i) in
      let there = not_fresh s inp.txid inp.index txn.inputs h named in
      ground (arith, (write_txn_to_db-unspent txn ts s h).1 (comparable_input inp), u, there, new)
