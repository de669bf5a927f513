-- ===== src/Verify/Total.antt =====
-- In a sound state the verification of a transaction with an input that is no dummy does not raise,
-- and the inputs of a transaction that it accepts can be spent.
use belcoin.Prelude.{
  ◌<◌, ◌≡◌, ◌≢◌, refl, Bool, true, false, some, List, [], ◌∷◌, arith, ◌==◌, length, get_elem?,
  get_elem?-lt, get_elem?-total, All, inl, inr, Bool-cases, Option-cases,
}
use belcoin.Tesseract.{Input, Transaction}
use belcoin.Exec.{Raised, ok}
use belcoin.State.{Env, Node}
use belcoin.Mempool.Sound.{IsSound}
use belcoin.Ledger.{amounts}
use belcoin.Ledger.Spend.{IsPresent}
use belcoin.Verify.{
  Replacement, no_match, refused, replaces, Locals, raised, check_pend_replacement, check_unspent,
  verify_input, verify_inputs, conclude, finish_check, reject_stored, verify_txn,
}
use belcoin.Verify.Spendable.{IsSpendable, has_real, Step-cases, verify_inputs_sound}
use belcoin.Verify.Accepts.{start, verify_txn-accepts_iff}
use belcoin.Verify.Conserve.{HasNoDummy}

module _ ⦃E : Env⦄ where
  open E use {crypto as C, wrappers as W}

  verify_input-not_raised :
      (b : Bool) (txn : Transaction) (s : Node) (inp : Input) (l : Locals) (e : Raised)
      → IsSound s
      → verify_input b txn s inp l ≢ raised e
  unfolding verify_input check_unspent
  verify_input-not_raised b txn s inp l e h = λ r. elim (Option-cases (W.get s.db inp.txid)) [
    | inl absent ↦ ground (arith, absent)
    | inr (w, stored) ↦ elim (Option-cases (get_elem? w.txn.outputs inp.index)) [
      | inl outside ↦ ground (arith, stored, outside)
      | inr (o, listed) ↦
          let inside : inp.index < length w.utxos =
            ground
              (arith, get_elem?-lt w.txn.outputs inp.index o listed, h.sized inp.txid w stored) in
          let (u, flag) = get_elem?-total w.utxos inp.index inside in
          ground (arith, stored, listed, flag)
    ]
  ]

  verify_inputs-not_raised :
      (b : Bool) (txn : Transaction) (s : Node) (inps : List Input) (l : Locals) (e : Raised)
      → IsSound s
      → verify_inputs b txn s inps l ≢ raised e
  unfolding verify_inputs
  verify_inputs-not_raised b txn s [] l e h = λ r. cc
  verify_inputs-not_raised b txn s (inp ∷ inps) l e h = λ r.
      elim (Step-cases (verify_input b txn s inp l)) [
        | inl (l1, goes) ↦ verify_inputs-not_raised b txn s inps l1 e h (ground (arith, goes))
        | inr (inl stops) ↦ ground (arith, stops)
        | inr (inr (x, raises)) ↦ verify_input-not_raised b txn s inp l x h raises
      ]

  finish_check-some : (c : Replacement) (s : Node) → (finish_check (some c) s).0 ≡ ok true
  unfolding finish_check
  finish_check-some no_match s = refl
  finish_check-some refused s = refl
  finish_check-some (replaces tx) s = refl

  -- A verification in a sound state returns, for a transaction with an input that is no dummy.
  pub verify_txn-returns :
      (txn : Transaction) (s : Node)
      → IsSound s
      → has_real txn.inputs ≡ true
      → (b : Bool) × ((verify_txn true txn s).0 ≡ ok b)
  unfolding verify_txn conclude reject_stored
  verify_txn-returns txn s h real = elim (Option-cases (W.get s.db txn.txid)) [
    | inr (w, stored) ↦ (false, ground (arith, stored))
    | inl new ↦ elim (Step-cases (verify_inputs true txn s txn.inputs start)) [
      | inl (l, goes) ↦
          let (_, e) = verify_inputs_sound true txn s txn.inputs start l goes in
          let checked : l.check ≡ some (check_pend_replacement txn s) = ground (arith, e, real) in
          elim (Bool-cases (l.has_coins == amounts txn.outputs)) [
            | inl balanced ↦ (
              true,
              ground (
                arith,
                new,
                goes,
                balanced,
                checked,
                finish_check-some (check_pend_replacement txn s) s,
              ),
            )
            | inr unbalanced ↦ (false, ground (arith, new, goes, unbalanced))
          ]
      | inr (inl stops) ↦ (false, ground (arith, new, stops))
      | inr (inr (x, raises)) ↦
          absurd (verify_inputs-not_raised true txn s txn.inputs start x h raises)
    ]
  ]

  pub spendable-IsPresent :
      (txn : Transaction) (s : Node) (inp : Input)
      → IsSound s
      → inp.txid ≢ C.no_hash
      → IsSpendable true txn s inp
      → IsPresent s inp
  spendable-IsPresent txn s inp h real (inl dummy) = absurd (real dummy)
  spendable-IsPresent txn s inp h real (inr (_, (w, o, stored, listed, u, a))) = (
    w,
    o,
    stored,
    listed,
    ground (arith, get_elem?-lt w.txn.outputs inp.index o listed, h.sized inp.txid w stored),
  )

  pub All-IsPresent :
      (txn : Transaction) (s : Node) (inps : List Input)
      → IsSound s
      → HasNoDummy inps
      → All (IsSpendable true txn s) inps
      → All (IsPresent s) inps
  All-IsPresent txn s [] h d a = tt
  All-IsPresent txn s (inp ∷ inps) h (d, ds) (a, rest) =
      (spendable-IsPresent txn s inp h d a, All-IsPresent txn s inps h ds rest)

  -- The inputs of an accepted transaction without dummies are all there.
  pub accepted-IsPresent :
      (txn : Transaction) (s : Node)
      → IsSound s
      → HasNoDummy txn.inputs
      → (verify_txn true txn s).0 ≡ ok true
      → All (IsPresent s) txn.inputs
  accepted-IsPresent txn s h d v =
      All-IsPresent txn s txn.inputs h d ((verify_txn-accepts_iff true txn s).0 v).spendable
