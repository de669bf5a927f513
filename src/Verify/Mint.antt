-- ===== src/Verify/Mint.antt =====
-- A transaction that names one output twice makes coins.
use mathlib.Core.Path.{subst}
use belcoin.Prelude.{
  ℕ, ◌+◌, ◌<◌, ◌≡◌, ◌≢◌, sym, ap, ◌∙◌, true, false, none, some, List, [], ◌∷◌, arith, ◌||◌, length,
  get_elem?, get_elem?-lt, get_elem?-set, set, All, inl, inr,
}
use belcoin.Tesseract.{Input, Output, Transaction}
use belcoin.Exec.{Result, ok, for_each, modify, ◌>>=◌}
use belcoin.TxnWrapper.{TxnWrapper, wrap}
use belcoin.State.{Env, Node}
use belcoin.Ledger.{amounts, spend_output, spend, store, write_txn_to_db}
use belcoin.Ledger.Spend.{spend-eq}
use belcoin.Ledger.Value.{
  ledger_value, unspent_value, unspent_amounts-all, unspent_amounts-set_spent, db_total-put,
  db_total-put_new,
}
use belcoin.Ledger.Conserve.{value-spend_output}
use belcoin.Verify.{no_match, check_pend_replacement, verify_txn}
use belcoin.Verify.Spendable.{IsSpendable, Unlocks, coins, has_real}
use belcoin.Verify.Accepts.{verify_txn-accepts_iff}

module _ ⦃E : Env⦄ where
  open E use {crypto as C, wrappers as W}

  module _ (txn : Transaction) (ts : ℕ) (s : Node) (a b : Input) (w : TxnWrapper) (o : Output)
      (both : txn.inputs ≡ a ∷ b ∷ []) (same : b.txid ≡ a.txid) (same_index : b.index ≡ a.index)
      (new : W.get s.db txn.txid ≡ none) (real : a.txid ≢ C.no_hash)
      (stored : W.get s.db a.txid ≡ some w) (listed : get_elem? w.txn.outputs a.index ≡ some o)
      (flag : get_elem? w.utxos a.index ≡ some true)
      (free : check_pend_replacement txn s ≡ no_match)
      (unlocks_a : Unlocks s.current_time txn.txid a w o)
      (unlocks_b : Unlocks s.current_time txn.txid b w o)
      (double : amounts txn.outputs ≡ o.amount + o.amount) where
    stored_b : W.get s.db b.txid ≡ some w
    stored_b = ap (W.get s.db) same ∙ stored

    listed_b : get_elem? w.txn.outputs b.index ≡ some o
    listed_b = ap (get_elem? w.txn.outputs) same_index ∙ listed

    first_spends : IsSpendable true txn s a
    first_spends = inr (real, (w, o, stored, listed, unlocks_a, inl (free, flag)))

    second_spends : IsSpendable true txn s b
    second_spends = inr (
      (λ e. real (sym same ∙ e)),
      (w, o, stored_b, listed_b, unlocks_b, inl (free, ap (get_elem? w.utxos) same_index ∙ flag)),
    )

    accepted : (verify_txn true txn s).0 ≡ ok true
    accepted = (verify_txn-accepts_iff true txn s).1 (record {
      fresh = new;
      spendable =
          subst (All (IsSpendable true txn s)) (sym both) (first_spends, (second_spends, tt));
      balanced = ap (coins s) both ∙ ground (arith, stored, listed, stored_b, listed_b, same);
      checked = ap (λ (xs : List Input). has_real xs || false) both ∙ ground arith;
    })

    spent : TxnWrapper
    spent = record w { utxos = set w.utxos a.index false }

    inside : a.index < length w.utxos
    inside = get_elem?-lt w.utxos a.index true flag

    s1 : Node
    s1 = spend_output a w o s

    stored_again : W.get s1.db b.txid ≡ some spent
    unfolding s1 spent spend_output
    stored_again =
        ground (
          arith,
          W.get-put s.db a.txid b.txid (record w { utxos = set w.utxos a.index false }),
          same,
        )

    flag_again : get_elem? spent.utxos b.index ≡ some false
    unfolding spent
    flag_again = ground (arith, get_elem?-set w.utxos a.index b.index false inside, same_index)

    s2 : Node
    s2 = spend_output b spent o s1

    loop_runs : for_each txn.inputs spend s ≡ (ok tt, s2)
    unfolding for_each s1 s2 spent
    loop_runs =
        ap (λ (xs : List Input). for_each xs spend s) both
        ∙ ground (
          arith,
          spend-eq a w o s stored listed inside,
          spend-eq b (record w { utxos = set w.utxos a.index false }) o (spend_output a w o s)
              stored_again listed_b (get_elem?-lt _ b.index false flag_again),
        )

    value_s2 : ledger_value s2 ≡ ledger_value s1
    unfolding s2 spend_output
    value_s2 = omega (
      arith,
      db_total-put unspent_value s1.db b.txid
          (record spent { utxos = set spent.utxos b.index false }) spent stored_again,
      unspent_amounts-set_spent spent.txn.outputs spent.utxos b.index flag_again,
    )

    value_s1 : ledger_value s1 + o.amount ≡ ledger_value s
    unfolding s1
    value_s1 = value-spend_output a w o s stored listed flag

    new_s2 : W.get s2.db txn.txid ≡ none
    unfolding s1 s2 spend_output
    new_s2 = ground (
      arith,
      W.get-put s.db a.txid txn.txid (record w { utxos = set w.utxos a.index false }),
      W.get-put s1.db b.txid txn.txid (record spent { utxos = set spent.utxos b.index false }),
      same,
      new,
      stored,
    )

    -- A transaction with two inputs that name the same unspent output, both unlocked, and with twice
    -- that output's amount in its own outputs, is verified and written, and the value of the ledger
    -- grows by the amount: the check of each input does not look at the other inputs.
    pub repeated_input_mints :
        ((verify_txn true txn s).0 ≡ ok true)
        × (ledger_value (write_txn_to_db txn ts s).1 ≡ ledger_value s + o.amount)
    unfolding write_txn_to_db store
    repeated_input_mints = (
      accepted,
      ap
            (λ (q : Result (Unit {0}) × Node).
              ledger_value (◌>>=◌ (λ (s : Node). q) (λ _. modify (store txn ts)) s).1)
            loop_runs
          ∙ omega (
            arith,
            value_s1,
            value_s2,
            db_total-put_new unspent_value s2.db txn.txid (wrap txn ts) new_s2,
            unspent_amounts-all txn.outputs,
            double,
          ),
    )
