-- ===== src/Block/Locked.antt =====
-- A pending transaction stays pending until its timelock is over (belcoin_node/storage.py,
-- `update_pend`).
use belcoin.Prelude.{
  ◌≡◌, ◌≢◌, refl, ap, ◌∙◌, sym, false, Option, none, some, List, [], ◌∷◌, arith, ◌==◌,
  if◌then◌else◌, In, inl, inr, Bool-cases,
}
use belcoin.Tesseract.{Bytes, Input, Output, Transaction}
use belcoin.Exec.{Exec, index_error, pure, raise, modify, for_each, ◌>>=◌}
use belcoin.Exec.Keeps.{
  Keeps, Keeps-raise, Keeps-modify, Keeps-bind, Keeps-pure, Keeps-if, keeps_rules,
}
use belcoin.TxnWrapper.{TxnWrapper}
use belcoin.Dict.{Dict, lookup, Distinct}
use belcoin.State.{Env, Node}
use belcoin.Mempool.{remove_from_mempool, remove_invalid_txn_from_mempool}
use belcoin.Mempool.Sound.{IsSound}
use belcoin.Ledger.{
  amounts, spend, spend_at, spend_output, mark_spent, store, write_txn_to_db, del_from_pending,
}
use belcoin.Verify.{
  Locals, Step, continue, invalid, raised, timelock_over, conclude, reject_stored, verify_txn,
}
use belcoin.Block.{release, release_if_due, update_pend}

In-lookup :
    (d : Dict TxnWrapper) (k : Bytes) (w : TxnWrapper)
    → Distinct d
    → In (k, w) d
    → lookup k d ≡ some w
In-lookup [] k w h i = elim i [ ]
In-lookup ((j, v) ∷ d) k w h (inl e) = ground (arith, ap (λ q. q.0) e, ap (λ q. q.1) e)
In-lookup ((j, v) ∷ d) k w h (inr i) = ground (arith, In-lookup d k w h.1 i, h.0)

module _ {S A : Type 0} {P : S → Type 0} where
  Keeps-for_each-In :
      (xs : List A) (body : A → Exec S (Unit {0}))
      → ((x : A) → In x xs → Keeps P (body x))
      → Keeps P (for_each xs body)
  unfolding for_each
  Keeps-for_each-In [] body k = record { at = λ s h. h }
  Keeps-for_each-In (x ∷ xs) body k =
      Keeps-bind (body x) (λ _. for_each xs body) (k x (inl refl))
        (λ _. Keeps-for_each-In xs body (λ y i. k y (inr i)))

module _ ⦃E : Env⦄ where
  open E use {wrappers as W}

  module _ (k : Bytes) (w : TxnWrapper) (s : Node) where
    -- The transaction is still pending, at the time of the state given.
    record IsWaiting (s' : Node) : Type 0 where
      there : W.get s'.pend k ≡ some w
      time : s'.current_time ≡ s.current_time

    IsWaiting-same :
        (a b : Node) → IsWaiting a → b.pend ≡ a.pend → b.current_time ≡ a.current_time → IsWaiting b
    IsWaiting-same a b h p t = record { there = ap (λ d. W.get d k) p ∙ h.there; time = t ∙ h.time }

    spend_at-IsWaiting :
        (inp : Input) (v : TxnWrapper) (o : Option Output) → Keeps IsWaiting (spend_at inp v o)
    unfolding spend_at spend_output mark_spent
    spend_at-IsWaiting inp v none =
        Keeps-bind (modify (mark_spent inp v)) (λ _. raise index_error)
          (Keeps-modify _ (λ a h. IsWaiting-same a _ h refl refl)) (λ _. Keeps-raise index_error)
    spend_at-IsWaiting inp v (some o) = Keeps-modify _ (λ a h. IsWaiting-same a _ h refl refl)

    spend-IsWaiting : (inp : Input) → Keeps IsWaiting (spend inp)
    unfolding spend
    spend-IsWaiting inp = search (keeps_rules, Keeps-raise, spend_at-IsWaiting) depth 8

    store-IsWaiting :
        (txn : Transaction) (ts : _) (a : Node) → IsWaiting a → IsWaiting (store txn ts a)
    unfolding store
    store-IsWaiting txn ts a h = IsWaiting-same a _ h refl refl

    write_txn_to_db-IsWaiting :
        (txn : Transaction) (ts : _) → Keeps IsWaiting (write_txn_to_db txn ts)
    unfolding write_txn_to_db
    write_txn_to_db-IsWaiting txn ts = search (keeps_rules, spend-IsWaiting, store-IsWaiting)

    conclude-IsWaiting :
        (txn : Transaction) (r : Step Locals) → Keeps IsWaiting (conclude false txn r)
    unfolding conclude remove_invalid_txn_from_mempool remove_from_mempool
    conclude-IsWaiting txn (raised e) = record { at = λ a h. h }
    conclude-IsWaiting txn invalid = record { at = λ a h. IsWaiting-same a _ h refl refl }
    conclude-IsWaiting txn (continue l) = record {
      at = λ a h. elim (Bool-cases (l.has_coins == amounts txn.outputs)) [
        | inl balanced ↦ rw balanced h
        | inr unbalanced ↦ rw unbalanced (IsWaiting-same a _ h refl refl)
      ];
    }

    reject_stored-IsWaiting : (txn : Transaction) → Keeps IsWaiting (reject_stored txn)
    unfolding reject_stored remove_from_mempool
    reject_stored-IsWaiting txn = record { at = λ a h. IsWaiting-same a _ h refl refl }

    verify_txn-IsWaiting : (txn : Transaction) → Keeps IsWaiting (verify_txn false txn)
    unfolding verify_txn
    verify_txn-IsWaiting txn = search (keeps_rules, conclude-IsWaiting, reject_stored-IsWaiting)

    del_from_pending-IsWaiting :
        (txn : Transaction)
        → txn.txid ≢ k
        → (a : Node) → IsWaiting a
        → IsWaiting (del_from_pending txn a)
    unfolding del_from_pending
    del_from_pending-IsWaiting txn other a h = record {
      there = ground (arith, W.get-delete a.pend txn.txid k, h.there, other);
      time = h.time;
    }

    release-IsWaiting : (v : TxnWrapper) → v.txn.txid ≢ k → Keeps IsWaiting (release v)
    unfolding release
    release-IsWaiting v other =
        Keeps-bind (modify (del_from_pending v.txn))
          (λ _. verify_txn false v.txn >>= λ valid.
            if valid then write_txn_to_db v.txn v.timestamp else pure tt)
          (Keeps-modify _ (del_from_pending-IsWaiting v.txn other))
          (λ _. search (keeps_rules, verify_txn-IsWaiting, write_txn_to_db-IsWaiting))

  -- When a block is committed, a pending transaction whose timelock is not over by the node's time
  -- stays pending, whatever happens to the others.
  pub update_pend-keeps_locked :
      (s : Node) (k : Bytes) (w : TxnWrapper)
      → IsSound s
      → W.get s.pend k ≡ some w
      → timelock_over s.current_time w ≡ false
      → W.get (update_pend s).1.pend k ≡ some w
  unfolding update_pend release_if_due
  update_pend-keeps_locked s k w h there locked =
      ((Keeps-for_each-In (W.entries s.pend) release_if_due each).at s
        (record { there = there; time = refl })).there
    where
      each :
          (e : Bytes × TxnWrapper)
          → In e (W.entries s.pend)
          → Keeps (IsWaiting k w s) (release_if_due e)
      each (j, v) i =
          let found : W.get s.pend j ≡ some v =
            sym (W.lookup-entries s.pend j)
            ∙ In-lookup (W.entries s.pend) j v (W.entries-Distinct s.pend) i in
          elim (Bool-cases (j == k)) [
            | inl same ↦ record {
              at = λ a g.
                  let waits : timelock_over a.current_time v ≡ false =
                    ap (λ n. timelock_over n v) g.time
                    ∙ (ap (timelock_over s.current_time) (ground (arith, found, there)) ∙ locked) in
                  rw waits g;
            }
            | inr other ↦ record {
              at = λ a g.
                  (Keeps-if (timelock_over a.current_time v) (release v) (pure tt)
                      (release-IsWaiting k w s v (ground (arith, h.pend_keyed j v found)))
                      (Keeps-pure tt)).at
                    a g;
            }
          ]
