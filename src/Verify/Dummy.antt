-- ===== src/Verify/Dummy.antt =====
-- A transaction with a dummy input among its inputs is verified but cannot be written.
use mathlib.Core.Path.{subst}
use belcoin.Prelude.{
  ◌≡◌, ap, ◌∙◌, true, false, none, some, List, [], ◌∷◌, ◌++◌, arith, All, if◌then◌else◌,
}
use belcoin.Tesseract.{Bytes, Input, Transaction}
use belcoin.Exec.{Exec, Result, ok, err, key_error, for_each, modify, ◌>>=◌}
use belcoin.Index.{Ref, ref_elem}
use belcoin.State.{Env, Node}
use belcoin.Mempool.Sound.{IsSound}
use belcoin.Ledger.{input_refs, spend, store, write_txn_to_db}
use belcoin.Ledger.Spend.{unspent, txn_at, for_each-spend}
use belcoin.Verify.{verify_txn}
use belcoin.Verify.Spendable.{IsSpendable}
use belcoin.Verify.Accepts.{verify_txn-accepts_iff}
use belcoin.Verify.Conserve.{HasNoDummy}
use belcoin.Verify.Total.{All-IsPresent}

All-before : {A : Type 0} (P : A → Type 0) (xs ys : List A) → All P (xs ++ ys) → All P xs
All-before P [] ys h = tt
All-before P (x ∷ xs) ys (h, hs) = (h, All-before P xs ys hs)

after-ok :
    {S : Type 0} (m : Result (Unit {0}) × S) (f g : S → Result (Unit {0}) × S)
    (t : Result (Unit {0}) × S) (s' : S)
    → ((s : S) → f s ≡ (ok tt, s') → g s ≡ t)
    → ◌>>=◌ (λ (s : S). m) (λ _. f) s' ≡ (ok tt, s')
    → ◌>>=◌ (λ (s : S). m) (λ _. g) s' ≡ t
after-ok (ok _, s) f g t s' k e = k s e
after-ok (err x, s) f g t s' k e = absurd (cc e)

-- A loop goes on after a part that ends without an exception.
for_each-append :
    {S A : Type 0} (xs ys : List A) (body : A → Exec S (Unit {0})) (s s' : S)
    → for_each xs body s ≡ (ok tt, s')
    → for_each (xs ++ ys) body s ≡ for_each ys body s'
unfolding for_each
for_each-append [] ys body s s' e = ap (λ q. for_each ys body q.1) e
for_each-append (x ∷ xs) ys body s s' e =
    after-ok (body x s) (for_each xs body) (for_each (xs ++ ys) body) (for_each ys body s') s'
      (λ s1. for_each-append xs ys body s1 s') e

module _ ⦃E : Env⦄ where
  open E use {crypto as C, wrappers as W}

  spend-dummy :
      (s : Node) (d : Input) (post : List Input)
      → W.get s.db d.txid ≡ none
      → for_each (d ∷ post) spend s ≡ (err key_error, s)
  unfolding spend for_each
  spend-dummy s d post absent = ground (arith, absent)

  absent-at :
      (s s' : Node) (k : Bytes)
      → txn_at s' k ≡ txn_at s k
      → W.get s.db k ≡ none
      → W.get s'.db k ≡ none
  absent-at s s' k e absent = ground (arith, absent)

  -- An accepted transaction with dummies among its inputs, in a sound state without an entry under
  -- NO_HASH in the ledger: its write raises a KeyError at the first dummy, the transaction is not
  -- stored, and exactly the outputs named before that dummy are spent. Their amounts are lost.
  pub dummy_input_burns :
      (txn : Transaction) (ts : _) (s : Node) (pre : List Input) (d : Input) (post : List Input)
      → IsSound s
      → txn.inputs ≡ pre ++ (d ∷ post)
      → HasNoDummy pre
      → d.txid ≡ C.no_hash
      → W.get s.db C.no_hash ≡ none
      → (verify_txn true txn s).0 ≡ ok true
      → ((write_txn_to_db txn ts s).0 ≡ err key_error)
        × (W.get (write_txn_to_db txn ts s).1.db txn.txid ≡ none)
        × ((r : Ref)
            → unspent (write_txn_to_db txn ts s).1 r
              ≡ (if ref_elem r (input_refs pre) then some false else unspent s r))
  unfolding write_txn_to_db
  dummy_input_burns txn ts s pre d post h split real dummy absent v =
      let a = (verify_txn-accepts_iff true txn s).0 v in
      let (s1, first, spent) = for_each-spend pre s (
        All-IsPresent txn s pre h real (
          All-before (IsSpendable true txn s) pre (d ∷ post)
            (subst (All (IsSpendable true txn s)) split a.spendable))) in
      let gone : W.get s1.db d.txid ≡ none =
        ap (W.get s1.db) dummy ∙ absent-at s s1 C.no_hash (spent.txns C.no_hash) absent in
      let loop : for_each txn.inputs spend s ≡ (err key_error, s1) =
        ap (λ (xs : List Input). for_each xs spend s) split
        ∙ for_each-append pre (d ∷ post) spend s s1 first
        ∙ spend-dummy s1 d post gone in
      let whole : write_txn_to_db txn ts s ≡ (err key_error, s1) =
        ap
          (λ (q : Result (Unit {0}) × Node). ◌>>=◌ (λ (s : Node). q) (λ _. modify (store txn ts)) s)
          loop in
      (
        ap (λ q. q.0) whole,
        ap (λ q. W.get q.1.db txn.txid) whole
            ∙ absent-at s s1 txn.txid (spent.txns txn.txid) a.fresh,
        λ r. ap (λ q. unspent q.1 r) whole ∙ spent.bits r,
      )
