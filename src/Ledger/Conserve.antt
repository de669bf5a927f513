-- ===== src/Ledger/Conserve.antt =====
-- Spending the inputs takes their amounts out of the ledger, if no output is named twice.
use belcoin.Prelude.{
  ℕ, ◌+◌, ◌≡◌, refl, ap, ◌∙◌, true, false, none, some, List, [], ◌∷◌, arith, ◌==◌, get_elem?,
  get_elem?-lt, get_elem?-set, set, All, inl, inr, Bool-cases,
}
use belcoin.Tesseract.{Input, Output, Transaction}
use belcoin.Exec.{Result, ok, for_each, modify, ◌>>=◌}
use belcoin.TxnWrapper.{TxnWrapper, wrap}
use belcoin.Index.{Ref, ref_eq, ref_elem}
use belcoin.State.{Env, Node}
use belcoin.Ledger.{amounts, input_refs, spend_output, spend, store, write_txn_to_db}
use belcoin.Ledger.Spend.{IsPresent, for_each-spend, spend-eq, All-map}
use belcoin.Ledger.Value.{
  unspent_amounts-set, unspent_amounts-all, unspent_value, db_total-put, db_total-put_new,
  ledger_value,
}

-- No output is named twice.
abbrev pub OnceRefs : List Ref → Type 0
OnceRefs [] = Unit
OnceRefs (r ∷ rs) = (ref_elem r rs ≡ false) × OnceRefs rs

module _ ⦃E : Env⦄ where
  open E use {crypto as C, wrappers as W}

  -- The input's output is stored and unspent.
  abbrev pub IsUnspent : Node → Input → Type 0
  IsUnspent s inp =
      (w : TxnWrapper) × (o : Output) × (W.get s.db inp.txid ≡ some w)
      × (get_elem? w.txn.outputs inp.index ≡ some o)
      × (get_elem? w.utxos inp.index ≡ some true)

  -- The amount of the output that an input names.
  abbrev pub amount_at : Node → Input → ℕ
  amount_at s inp = elim (W.get s.db inp.txid) [
    | none ↦ 0
    | some w ↦ elim (get_elem? w.txn.outputs inp.index) [ none ↦ 0 | some o ↦ o.amount ]
  ]

  abbrev pub amounts_at : Node → List Input → ℕ
  amounts_at s [] = 0
  amounts_at s (inp ∷ inps) = amount_at s inp + amounts_at s inps

  pub IsUnspent-IsPresent : (s : Node) (inp : Input) → IsUnspent s inp → IsPresent s inp
  IsUnspent-IsPresent s inp (w, o, stored, listed, u) =
      (w, o, stored, listed, get_elem?-lt w.utxos inp.index true u)

  amount_at_lem :
      (inp : Input) (w : TxnWrapper) (o : Output) (s : Node)
      → W.get s.db inp.txid ≡ some w
      → get_elem? w.txn.outputs inp.index ≡ some o
      → amount_at s inp ≡ o.amount
  amount_at_lem inp w o s stored listed = ground (arith, stored, listed)

  module _ (inp : Input) (w : TxnWrapper) (o : Output) (s : Node)
      (stored : W.get s.db inp.txid ≡ some w) (listed : get_elem? w.txn.outputs inp.index ≡ some o)
      (fresh : get_elem? w.utxos inp.index ≡ some true) where
    pub value-spend_output : ledger_value (spend_output inp w o s) + o.amount ≡ ledger_value s
    unfolding spend_output
    value-spend_output = omega (
      arith,
      db_total-put unspent_value s.db inp.txid (record w { utxos = set w.utxos inp.index false }) w
          stored,
      unspent_amounts-set w.txn.outputs w.utxos inp.index o listed fresh,
    )

    amount_at-spend_output : (x : Input) → amount_at (spend_output inp w o s) x ≡ amount_at s x
    unfolding spend_output
    amount_at-spend_output x = ground (
      arith,
      W.get-put s.db inp.txid x.txid (record w { utxos = set w.utxos inp.index false }),
      stored,
    )

    amounts_at-spend_output :
        (xs : List Input) → amounts_at (spend_output inp w o s) xs ≡ amounts_at s xs
    amounts_at-spend_output [] = refl
    amounts_at-spend_output (x ∷ xs) =
        omega (arith, amount_at-spend_output x, amounts_at-spend_output xs)

    IsUnspent-spend_output :
        (x : Input)
        → ref_eq (inp.txid, inp.index) (x.txid, x.index) ≡ false
        → IsUnspent s x
        → IsUnspent (spend_output inp w o s) x
    unfolding spend_output
    IsUnspent-spend_output x other (v, p, stored1, listed1, fresh1) =
        elim (Bool-cases (inp.txid == x.txid)) [
          | inl same ↦
              let w-eq : w ≡ v = ground (arith, stored) in
              (
                record w { utxos = set w.utxos inp.index false },
                p,
                ground (
                  arith,
                  W.get-put s.db inp.txid x.txid (record w { utxos = set w.utxos inp.index false }),
                ),
                ground (arith, w-eq),
                ground (
                  arith,
                  get_elem?-set w.utxos inp.index x.index false
                      (get_elem?-lt w.utxos inp.index true fresh),
                  w-eq,
                ),
              )
          | inr apart ↦ (
            v,
            p,
            ground (
              arith,
              W.get-put s.db inp.txid x.txid (record w { utxos = set w.utxos inp.index false }),
            ),
            listed1,
            fresh1,
          )
        ]

    All-IsUnspent-spend_output :
        (xs : List Input)
        → ref_elem (inp.txid, inp.index) (input_refs xs) ≡ false
        → All (IsUnspent s) xs
        → All (IsUnspent (spend_output inp w o s)) xs
    All-IsUnspent-spend_output [] other h = tt
    All-IsUnspent-spend_output (x ∷ xs) other (h, hs) = (
      IsUnspent-spend_output x (ground (arith, other)) h,
      All-IsUnspent-spend_output xs (ground (arith, other)) hs,
    )

  -- The loop takes the amounts of its inputs out of the ledger.
  pub value-for_each :
      (inps : List Input) (s s' : Node)
      → All (IsUnspent s) inps
      → OnceRefs (input_refs inps)
      → for_each inps spend s ≡ (ok tt, s')
      → ledger_value s' + amounts_at s inps ≡ ledger_value s
  unfolding for_each
  value-for_each [] s s' h once e =
      omega (arith, ap (λ (r : Result (Unit {0}) × Node). ledger_value r.1) e)
  value-for_each (inp ∷ inps) s s' ((w, o, stored, listed, fresh), hs) (new, once) e =
      let s1 = spend_output inp w o s in
      let inside = get_elem?-lt w.utxos inp.index true fresh in
      let e1 : for_each inps spend s1 ≡ (ok tt, s') =
        ground (arith, spend-eq inp w o s stored listed inside) in
      omega (
        arith,
        value-for_each inps s1 s'
            (All-IsUnspent-spend_output inp w o s stored listed fresh inps new hs) once e1,
        value-spend_output inp w o s stored listed fresh,
        amounts_at-spend_output inp w o s stored listed fresh inps,
        amount_at_lem inp w o s stored listed,
      )

  -- A transaction that is written with its inputs unspent, none of them named twice, and its amounts
  -- balanced leaves the value of the ledger as it was, and the write raises nothing.
  pub value-write_txn_to_db :
      (txn : Transaction) (ts : ℕ) (s : Node)
      → W.get s.db txn.txid ≡ none
      → All (IsUnspent s) txn.inputs
      → OnceRefs (input_refs txn.inputs)
      → amounts_at s txn.inputs ≡ amounts txn.outputs
      → ((write_txn_to_db txn ts s).0 ≡ ok tt)
        × (ledger_value (write_txn_to_db txn ts s).1 ≡ ledger_value s)
  unfolding write_txn_to_db store
  value-write_txn_to_db txn ts s new h once balanced =
      let (s', e, spent) =
        for_each-spend txn.inputs s (All-map (IsUnspent-IsPresent s) txn.inputs h) in
      let still_new : W.get s'.db txn.txid ≡ none = ground (arith, spent.txns txn.txid, new) in
      (
        ground (arith, e),
        (ap
              (λ (r : Result (Unit {0}) × Node).
                ledger_value (◌>>=◌ (λ (s : Node). r) (λ _. modify (store txn ts)) s).1)
              e)
            ∙ omega (
              arith,
              value-for_each txn.inputs s s' h once e,
              db_total-put_new unspent_value s'.db txn.txid (wrap txn ts) still_new,
              unspent_amounts-all txn.outputs,
            ),
      )
