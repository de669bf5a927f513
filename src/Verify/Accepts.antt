-- ===== src/Verify/Accepts.antt =====
-- When `verify_txn` accepts, described apart from the order of its tests.
use belcoin.Prelude.{◌≡◌, ◌↔◌, inl, inr, Bool, true, not, ◌||◌, none, arith, All}
use belcoin.Tesseract.{Transaction}
use belcoin.Exec.{ok}
use belcoin.State.{Env, Node}
use belcoin.Ledger.{amounts}
use belcoin.Verify.{Locals, verify_inputs, verify_txn}
use belcoin.Verify.Spendable.{
  IsSpendable, Step-cases, coins, has_real, verify_inputs_complete, verify_inputs_sound,
}

module _ ⦃E : Env⦄ where
  open E use {crypto as C, wrappers as W}

  -- The transaction is not stored, each input is spendable, the amounts balance, and one input at
  -- least is no dummy.
  pub record IsAcceptable (b : Bool) (txn : Transaction) (s : Node) : Type 0 where
    pub fresh : W.get s.db txn.txid ≡ none
    pub spendable : All (IsSpendable b txn s) txn.inputs
    pub balanced : coins s txn.inputs ≡ amounts txn.outputs
    pub checked : (has_real txn.inputs || not b) ≡ true

  abbrev pub start : Locals
  start = record { has_coins = 0; check = none }

  accepts_sound :
      (b : Bool) (txn : Transaction) (s : Node)
      → (verify_txn b txn s).0 ≡ ok true
      → IsAcceptable b txn s
  unfolding verify_txn
  accepts_sound b txn s h = elim (Step-cases (verify_inputs b txn s txn.inputs start)) [
    | inl (l, e) ↦
        let (sp, e') = verify_inputs_sound b txn s txn.inputs start l e in
        record {
          fresh = ground (arith, e, e');
          spendable = sp;
          balanced = ground (arith, e, e');
          checked = ground (arith, e, e');
        }
    | inr (inl stops) ↦ absurd (ground (arith, stops))
    | inr (inr (x, raises)) ↦ absurd (ground (arith, raises))
  ]

  accepts_complete :
      (b : Bool) (txn : Transaction) (s : Node)
      → IsAcceptable b txn s
      → (verify_txn b txn s).0 ≡ ok true
  unfolding verify_txn
  accepts_complete b txn s h = ground (
    arith,
    verify_inputs_complete b txn s txn.inputs start h.spendable,
    h.fresh,
    h.balanced,
    h.checked,
  )

  -- `verify_txn` returns True exactly for an acceptable transaction: one that is not stored, whose
  -- inputs are dummies or spend outputs that are stored, unlocked by their signatures or their
  -- preimage as their timeout asks, and unspent or held by the pending transaction that this one may
  -- replace (the last is asked only with `check_pend`), whose amounts balance, and, with
  -- `check_pend`, one of whose inputs is no dummy.
  pub verify_txn-accepts_iff :
      (b : Bool) (txn : Transaction) (s : Node)
      → ((verify_txn b txn s).0 ≡ ok true) ↔ IsAcceptable b txn s
  verify_txn-accepts_iff b txn s = (accepts_sound b txn s, accepts_complete b txn s)
