-- ===== src/Ledger/Value.antt =====
-- The value of the ledger: the amounts of all unspent outputs.
use belcoin.Prelude.{
  ℕ, zero, suc, ◌+◌, ◌≡◌, refl, ap, ◌∙◌, Bool, true, false, none, some, List, [], ◌∷◌, arith,
  if◌then◌else◌, get_elem?, map, set,
}
use belcoin.Tesseract.{Bytes, Output}
use belcoin.TxnWrapper.{TxnWrapper}
use belcoin.Dict.{insert, lookup-insert, insert-Distinct}
use belcoin.Dict.Total.{total, total-insert, total-insert_new, total-same}
use belcoin.Ledger.{amounts}
use belcoin.State.{Env, Node}

abbrev pub unspent_amounts : List Output → List Bool → ℕ
unspent_amounts [] bs = 0
unspent_amounts (o ∷ os) [] = 0
unspent_amounts (o ∷ os) (b ∷ bs) = (if b then o.amount else 0) + unspent_amounts os bs

abbrev pub unspent_value : TxnWrapper → ℕ
unspent_value w = unspent_amounts w.txn.outputs w.utxos

pub unspent_amounts-all : (os : List Output) → unspent_amounts os (map (λ _. true) os) ≡ amounts os
unspent_amounts-all [] = refl
unspent_amounts-all (o ∷ os) = ap (λ n. o.amount + n) (unspent_amounts-all os)

-- Spending an unspent output takes its amount away.
pub unspent_amounts-set :
    (os : List Output) (bs : List Bool) (i : ℕ) (o : Output)
    → get_elem? os i ≡ some o
    → get_elem? bs i ≡ some true
    → unspent_amounts os (set bs i false) + o.amount ≡ unspent_amounts os bs
unspent_amounts-set [] bs i o e u = cc
unspent_amounts-set (x ∷ os) [] i o e u = cc
unspent_amounts-set (x ∷ os) (b ∷ bs) zero o e u = ground arith
unspent_amounts-set (x ∷ os) (b ∷ bs) (suc i) o e u =
    omega (arith, unspent_amounts-set os bs i o e u)

-- Spending a spent output changes nothing.
pub unspent_amounts-set_spent :
    (os : List Output) (bs : List Bool) (i : ℕ)
    → get_elem? bs i ≡ some false
    → unspent_amounts os (set bs i false) ≡ unspent_amounts os bs
unspent_amounts-set_spent [] bs i u = refl
unspent_amounts-set_spent (x ∷ os) [] i u = refl
unspent_amounts-set_spent (x ∷ os) (b ∷ bs) zero u = ground arith
unspent_amounts-set_spent (x ∷ os) (b ∷ bs) (suc i) u =
    omega (arith, unspent_amounts-set_spent os bs i u)

module _ ⦃E : Env⦄ where
  open E use {wrappers as W}

  -- The sum of a property over a database.
  abbrev pub db_total : (TxnWrapper → ℕ) → W.Db → ℕ
  db_total f d = total f (W.entries d)

  db_total-put_eq :
      (f : TxnWrapper → ℕ) (d : W.Db) (k : Bytes) (v : TxnWrapper)
      → db_total f (W.put d k v) ≡ total f (insert k v (W.entries d))
  db_total-put_eq f d k v =
      total-same f (W.entries (W.put d k v)) (insert k v (W.entries d))
        (W.entries-Distinct (W.put d k v))
        (insert-Distinct k v (W.entries d) (W.entries-Distinct d))
        (λ j. ground (
          arith,
          W.lookup-entries (W.put d k v) j,
          W.lookup-entries d j,
          W.get-put d k j v,
          lookup-insert k j v (W.entries d),
        ))

  pub db_total-put :
      (f : TxnWrapper → ℕ) (d : W.Db) (k : Bytes) (v w : TxnWrapper)
      → W.get d k ≡ some w
      → db_total f (W.put d k v) + f w ≡ db_total f d + f v
  db_total-put f d k v w e =
      rw (db_total-put_eq f d k v) (total-insert f k v w (W.entries d) (W.lookup-entries d k ∙ e))

  pub db_total-put_new :
      (f : TxnWrapper → ℕ) (d : W.Db) (k : Bytes) (v : TxnWrapper)
      → W.get d k ≡ none
      → db_total f (W.put d k v) ≡ db_total f d + f v
  db_total-put_new f d k v e =
      rw (db_total-put_eq f d k v) (total-insert_new f k v (W.entries d) (W.lookup-entries d k ∙ e))

  abbrev pub ledger_value : Node → ℕ
  ledger_value s = db_total unspent_value s.db

  -- What the pending transactions hold: their inputs are spent and their outputs not yet written.
  abbrev pub pending_value : Node → ℕ
  pending_value s = db_total (λ w. amounts w.txn.outputs) s.pend
