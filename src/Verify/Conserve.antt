-- ===== src/Verify/Conserve.antt =====
-- Verified transactions and the value of the ledger.
use belcoin.Prelude.{ℕ, ◌≡◌, ◌≢◌, refl, true, List, [], ◌∷◌, arith, All, inl, inr}
use belcoin.Tesseract.{Input, Transaction}
use belcoin.Exec.{ok}
use belcoin.State.{Env, Node}
use belcoin.Ledger.{input_refs, write_txn_to_db}
use belcoin.Ledger.Value.{ledger_value}
use belcoin.Ledger.Conserve.{OnceRefs, IsUnspent, amounts_at, value-write_txn_to_db}
use belcoin.Verify.{no_match, check_pend_replacement, verify_txn}
use belcoin.Verify.Spendable.{IsSpendable, coins}
use belcoin.Verify.Accepts.{verify_txn-accepts_iff}

module _ ⦃E : Env⦄ where
  open E use {crypto as C, wrappers as W}

  -- No input is a dummy.
  abbrev pub HasNoDummy : List Input → Type 0
  HasNoDummy [] = Unit
  HasNoDummy (inp ∷ inps) = (inp.txid ≢ C.no_hash) × HasNoDummy inps

  module _ (txn : Transaction) (s : Node) (free : check_pend_replacement txn s ≡ no_match) where
    spendable-IsUnspent :
        (inp : Input) → inp.txid ≢ C.no_hash → IsSpendable true txn s inp → IsUnspent s inp
    spendable-IsUnspent inp real (inl dummy) = absurd (real dummy)
    spendable-IsUnspent inp real (inr (_, (w, o, stored, listed, u, inl (_, flag)))) =
        (w, o, stored, listed, flag)
    spendable-IsUnspent inp real (inr (_, (w, o, stored, listed, u, inr (tx, other)))) = absurd (cc)

    All-IsUnspent :
        (inps : List Input)
        → HasNoDummy inps
        → All (IsSpendable true txn s) inps
        → All (IsUnspent s) inps
    All-IsUnspent [] d h = tt
    All-IsUnspent (inp ∷ inps) (d, ds) (h, hs) =
        (spendable-IsUnspent inp d h, All-IsUnspent inps ds hs)

  coins-amounts_at :
      (s : Node) (inps : List Input) → HasNoDummy inps → coins s inps ≡ amounts_at s inps
  coins-amounts_at s [] d = refl
  coins-amounts_at s (inp ∷ inps) (d, ds) = ground (arith, coins-amounts_at s inps ds)

  -- A verified transaction that names no output twice and has no dummy inputs, and that no pending
  -- transaction stands in for, is written without an exception, and the sum of all unspent amounts
  -- stays what it was: no coin is made or lost.
  pub verified-conserves :
      (txn : Transaction) (ts : ℕ) (s : Node)
      → (verify_txn true txn s).0 ≡ ok true
      → check_pend_replacement txn s ≡ no_match
      → HasNoDummy txn.inputs
      → OnceRefs (input_refs txn.inputs)
      → ((write_txn_to_db txn ts s).0 ≡ ok tt)
        × (ledger_value (write_txn_to_db txn ts s).1 ≡ ledger_value s)
  verified-conserves txn ts s v free d once =
      let a = (verify_txn-accepts_iff true txn s).0 v in
      value-write_txn_to_db txn ts s a.fresh (All-IsUnspent txn s free txn.inputs d a.spendable)
        once (ground (arith, coins-amounts_at s txn.inputs d, a.balanced))
