-- ===== src/Tests/Races.antt =====
-- Two threads at a ledger with two coins, and the balances of a node with a pending payment.
use belcoin.Prelude.{zero, suc, ℕ, ◌≡◌, refl, true, false, some, List, [], ◌∷◌, arith}
use belcoin.Tesseract.{Transaction}
use belcoin.Exec.{ok}
use belcoin.TxnWrapper.{wrap}
use belcoin.Index.{has_ref, refs_of}
use belcoin.State.{Node}
use belcoin.Dict.{lookup}
use belcoin.Mempool.Sound.{owned_by, IsSound}
use belcoin.Ledger.{spend_output, write_txn_to_db}
use belcoin.Ledger.Spend.{unspent}
use belcoin.Ledger.Race.{lost_write}
use belcoin.Query.{UtxoGrpc, utxos_grpc_of, get_balance, index_eq}
use belcoin.Query.Complete.{balance_from, get_balance-amounts}
use belcoin.Tests.{toy, output, input, pay, transaction, coin_db, node}

-- Two coins of owner 1.
abbrev two_coins : Transaction
two_coins = transaction 7 [] (output 10 1 ∷ output 5 1 ∷ [])

abbrev node_with_two : Node ⦃E = toy⦄
node_with_two = record (node ((7, wrap two_coins 0) ∷ []) [] [] [] []) {
  pub_outs = (1, (7, 0) ∷ (7, 1) ∷ []) ∷ [];
}

two_indexed :
    (p k i : ℕ)
    → has_ref node_with_two.pub_outs p (k, i)
      ≡ owned_by ⦃E = toy⦄ (lookup k ((7, wrap two_coins 0) ∷ [])) p i
unfolding has_ref
two_indexed p k zero = ground arith
two_indexed p k (suc zero) = ground arith
two_indexed p k (suc (suc i)) = ground arith

node_with_two-IsSound : IsSound ⦃E = toy⦄ node_with_two
node_with_two-IsSound = record {
  keyed = λ k w e. ground arith;
  sized = λ k w e. ground arith;
  pend_keyed = λ k w e. ground arith;
  pool_keyed = λ k t e. ground arith;
  pooled = λ k e. ground arith;
  once = tt;
  indexed = λ p (k, i). two_indexed p k i;
}

-- The payment spends the first coin while the second is being spent.
lost_write_example :
    let s1 = (write_txn_to_db ⦃E = toy⦄ pay 5 node_with_two).1 in
    let s2 = spend_output ⦃E = toy⦄ (input 9 7 1 1) (wrap two_coins 0) (output 5 1) s1 in
    (unspent ⦃E = toy⦄ s1 (7, 0) ≡ some false)
    × (unspent ⦃E = toy⦄ s2 (7, 0) ≡ some true)
    × ¬ IsSound ⦃E = toy⦄ s2
lost_write_example =
    lost_write ⦃E = toy⦄ pay 5 node_with_two (input 9 7 1 1) (wrap two_coins 0) (output 5 1) 1 0
      node_with_two-IsSound refl refl refl
      ((wrap two_coins 0, output 10 1, refl, refl, omega arith), tt) refl refl (λ e. ground arith)

-- The coin of owner 1, and a pending payment that gives 6 back.
abbrev node_with_change : Node ⦃E = toy⦄
node_with_change = record (node coin_db ((8, wrap pay 5) ∷ []) [] [] []) {
  pub_outs_pend = (2, (8, 0) ∷ []) ∷ (1, (8, 1) ∷ []) ∷ [];
}

change_indexed :
    (p k i : ℕ)
    → has_ref node_with_change.pub_outs p (k, i) ≡ owned_by ⦃E = toy⦄ (lookup k coin_db) p i
unfolding has_ref
change_indexed p k zero = ground arith
change_indexed p k (suc i) = ground arith

node_with_change-IsSound : IsSound ⦃E = toy⦄ node_with_change
node_with_change-IsSound = record {
  keyed = λ k w e. ground arith;
  sized = λ k w e. ground arith;
  pend_keyed = λ k w e. ground arith;
  pool_keyed = λ k t e. ground arith;
  pooled = λ k e. ground arith;
  once = tt;
  indexed = λ p (k, i). change_indexed p k i;
}

abbrev change_listed : List UtxoGrpc
change_listed = record { ref = (8, 1); output = output 6 1; ts = 5 } ∷ []

lists_change :
    utxos_grpc_of ⦃E = toy⦄ node_with_change.pend (refs_of node_with_change.pub_outs_pend 1)
    ≡ ok change_listed
unfolding utxos_grpc_of
lists_change = refl

indexes_differ : index_eq node_with_change.pub_outs_pend node_with_change.pub_outs ≡ false
unfolding index_eq
indexes_differ = refl

get_balance-amounts_example :
    (us : List UtxoGrpc) × (utxos_grpc_of ⦃E = toy⦄ coin_db (refs_of node_with_change.pub_outs 1)
      ≡ ok us)
    × (get_balance ⦃E = toy⦄ node_with_change 1 node_with_change.pub_outs
        ≡ ok (balance_from 0 1 us))
    × (get_balance ⦃E = toy⦄ node_with_change 1 node_with_change.pub_outs_pend
        ≡ ok (balance_from 0 1 change_listed))
get_balance-amounts_example =
    get_balance-amounts ⦃E = toy⦄ node_with_change 1 change_listed node_with_change-IsSound
      indexes_differ lists_change
