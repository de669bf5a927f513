-- ===== src/Verify/Effect.antt =====
-- What `verify_txn` does to the state of the node.
use belcoin.Prelude.{
  ap, ◌≢◌, ◌≡◌, refl, Bool, true, false, Option, none, some, ◌==◌, if◌then◌else◌, is_some,
}
use belcoin.Tesseract.{Transaction}
use belcoin.Exec.{Raised, Result, ok, err, unbound_local_error}
use belcoin.Exec.Keeps.{Keeps}
use belcoin.State.{Env, Node}
use belcoin.Mempool.{remove_from_mempool, remove_invalid_txn_from_mempool}
use belcoin.Mempool.Sound.{IsSound, remove_from_mempool-IsSound, remove_invalid-IsSound}
use belcoin.Ledger.Sound.{del_from_pending-IsSound}
use belcoin.Ledger.{amounts, del_from_pending}
use belcoin.Verify.{
  Replacement, no_match, refused, replaces, Locals, Step, continue, invalid, raised, verify_inputs,
  finish_check, conclude, reject_stored, verify_txn,
}

module _ ⦃E : Env⦄ where
  open E use {wrappers as W, transactions as T}

  -- The ways in which a verification can end.
  pub data Ending (b : Bool) (txn : Transaction) (s : Node) (r : Result Bool × Node) : Type 0 where
    stored_already : r ≡ (ok false, remove_from_mempool txn.txid s) → Ending b txn s r
    rejected : r ≡ (ok false, remove_invalid_txn_from_mempool txn.txid s) → Ending b txn s r
    accepted : r ≡ (ok true, s) → Ending b txn s r
    replacing : (tx : Transaction) → r ≡ (ok true, del_from_pending tx s) → Ending b txn s r
    stopped : (e : Raised) → r ≡ (err e, s) → Ending b txn s r

  finish-Ending :
      (b : Bool) (txn : Transaction) (c : Option Replacement) (s : Node)
      → Ending b txn s (finish_check c s)
  unfolding finish_check
  finish-Ending b txn none s = stopped unbound_local_error refl
  finish-Ending b txn (some no_match) s = accepted refl
  finish-Ending b txn (some refused) s = accepted refl
  finish-Ending b txn (some (replaces tx)) s = replacing tx refl

  conclude-Ending :
      (b : Bool) (txn : Transaction) (r : Step Locals) (s : Node)
      → Ending b txn s (conclude b txn r s)
  unfolding conclude
  conclude-Ending b txn (raised e) s = stopped e refl
  conclude-Ending b txn invalid s = rejected refl
  conclude-Ending b txn (continue l) s = balance-Ending (l.has_coins == amounts txn.outputs) b
    where
      balance-Ending :
          (t c : Bool)
          → Ending b txn s (
              if t
              then (if c then finish_check l.check s else (ok true, s))
              else (ok false, remove_invalid_txn_from_mempool txn.txid s))
      balance-Ending true true = finish-Ending b txn l.check s
      balance-Ending true false = accepted refl
      balance-Ending false c = rejected refl

  pub verify_txn-Ending :
      (b : Bool) (txn : Transaction) (s : Node) → Ending b txn s (verify_txn b txn s)
  unfolding verify_txn
  verify_txn-Ending b txn s = stored-Ending (is_some (W.get s.db txn.txid))
    where
      stored-Ending :
          (t : Bool)
          → Ending b txn s (
              (if t
                  then reject_stored txn
                  else conclude b txn
                      (verify_inputs b txn s txn.inputs (record { has_coins = 0; check = none })))
                s)
      stored-Ending true = stored_already refl
      stored-Ending false =
          conclude-Ending b txn
            (verify_inputs b txn s txn.inputs (record { has_coins = 0; check = none })) s

  -- However it ends, a verification keeps a sound state.
  pub verify_txn-IsSound : (b : Bool) (txn : Transaction) → Keeps IsSound (verify_txn b txn)
  verify_txn-IsSound b txn = record {
    at = λ s h. at_ending s h (verify_txn b txn s) (verify_txn-Ending b txn s);
  }
    where
      at_ending : (s : Node) → IsSound s → (r : Result Bool × Node) → Ending b txn s r → IsSound r.1
      at_ending s h r (stored_already e) = rw e (remove_from_mempool-IsSound txn.txid s h)
      at_ending s h r (rejected e) = rw e (remove_invalid-IsSound txn.txid s h)
      at_ending s h r (accepted e) = rw e h
      at_ending s h r (replacing tx e) = rw e (del_from_pending-IsSound tx s h)
      at_ending s h r (stopped x e) = rw e h

  -- A verification that does not accept, because it returns False or raises, leaves both databases and
  -- both indexes as they are.
  pub verify_txn-leaves_ledger :
      (b : Bool) (txn : Transaction) (s : Node)
      → (verify_txn b txn s).0 ≢ ok true
      → ((verify_txn b txn s).1.db ≡ s.db)
        × ((verify_txn b txn s).1.pend ≡ s.pend)
        × ((verify_txn b txn s).1.pub_outs ≡ s.pub_outs)
        × ((verify_txn b txn s).1.pub_outs_pend ≡ s.pub_outs_pend)
  unfolding remove_from_mempool remove_invalid_txn_from_mempool
  verify_txn-leaves_ledger b txn s n = at_ending (verify_txn b txn s) n (verify_txn-Ending b txn s)
    where
      at_ending :
          (r : Result Bool × Node)
          → r.0 ≢ ok true
          → Ending b txn s r
          → (r.1.db ≡ s.db)
            × (r.1.pend ≡ s.pend)
            × (r.1.pub_outs ≡ s.pub_outs)
            × (r.1.pub_outs_pend ≡ s.pub_outs_pend)
      at_ending r n (stored_already e) = rw e (refl, refl, refl, refl)
      at_ending r n (rejected e) = rw e (refl, refl, refl, refl)
      at_ending r n (accepted e) = absurd (n (ap (λ q. q.0) e))
      at_ending r n (replacing tx e) = absurd (n (ap (λ q. q.0) e))
      at_ending r n (stopped x e) = rw e (refl, refl, refl, refl)
