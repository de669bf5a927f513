-- ===== src/Verify/Fresh.antt =====
-- A verified transaction is not in the ledger, which the verification does not change.
use belcoin.Prelude.{◌≡◌, refl, ap, ◌∙◌, Bool, true, false, none}
use belcoin.Tesseract.{Transaction}
use belcoin.Exec.{Exec, Result, ok, err, ◌>>=◌}
use belcoin.Exec.Keeps.{Keeps}
use belcoin.State.{Env, Node}
use belcoin.Mempool.{remove_from_mempool, remove_invalid_txn_from_mempool}
use belcoin.Mempool.Sound.{IsSound}
use belcoin.Ledger.{del_from_pending}
use belcoin.Verify.{verify_txn}
use belcoin.Verify.Accepts.{verify_txn-accepts_iff}
use belcoin.Verify.Effect.{
  Ending, stored_already, rejected, accepted, replacing, stopped, verify_txn-Ending,
  verify_txn-IsSound,
}

module _ ⦃E : Env⦄ where
  open E use {wrappers as W}

  pub Ending-db :
      (b : Bool) (txn : Transaction) (s : Node) (r : Result Bool × Node)
      → Ending b txn s r
      → r.1.db ≡ s.db
  unfolding remove_from_mempool remove_invalid_txn_from_mempool del_from_pending
  Ending-db b txn s r (stored_already e) = ap (λ q. q.1.db) e
  Ending-db b txn s r (rejected e) = ap (λ q. q.1.db) e
  Ending-db b txn s r (accepted e) = ap (λ q. q.1.db) e
  Ending-db b txn s r (replacing tx e) = ap (λ q. q.1.db) e
  Ending-db b txn s r (stopped x e) = ap (λ q. q.1.db) e

  -- What follows a verification keeps a sound state, if it does so for a transaction that is not in
  -- the ledger where it was accepted.
  pub verify_txn-then-IsSound :
      (b : Bool) (txn : Transaction) (f : Bool → Exec Node (Unit {0}))
      → ((s : Node) → IsSound s → W.get s.db txn.txid ≡ none → IsSound (f true s).1)
      → Keeps IsSound (f false)
      → Keeps IsSound (verify_txn b txn >>= f)
  verify_txn-then-IsSound b txn f accepting rejecting = record {
    at = λ s h.
        go (verify_txn b txn s).0 (verify_txn b txn s).1 ((verify_txn-IsSound b txn).at s h) (λ v.
          ap (λ d. W.get d txn.txid)
            (Ending-db b txn s (verify_txn b txn s) (verify_txn-Ending b txn s))
          ∙ ((verify_txn-accepts_iff b txn s).0 v).fresh);
  }
    where
      go :
          (r : Result Bool) (s' : Node)
          → IsSound s'
          → (r ≡ ok true → W.get s'.db txn.txid ≡ none)
          → IsSound (◌>>=◌ (λ (s : Node). (r, s')) f s').1
      go (ok true) s' h fresh = accepting s' h (fresh refl)
      go (ok false) s' h fresh = rejecting.at s' h
      go (err e) s' h fresh = h
