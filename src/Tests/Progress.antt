-- ===== src/Tests/Progress.antt =====
-- The theorems on the processing of blocks, at concrete states.
use belcoin.Index.{Ref, ref_elem}
use belcoin.State.{Node}
use mathlib.Core.Path.{subst}
use belcoin.Prelude.{
  if◌then◌else◌, List, ◌<◌, ◌+◌, ℕ, ◌≡◌, refl, true, false, none, some, [], ◌∷◌, arith, elem,
}
use belcoin.Tesseract.{Bytes, Transaction}
use belcoin.Exec.{ok, err, key_error}
use belcoin.Dict.{lookup}
use belcoin.Mempool.Sound.{IsSound}
use belcoin.Ledger.{write_txn_to_db}
use belcoin.Ledger.Spend.{unspent}
use belcoin.Verify.{
  verify_txn, verify_inputs, verify_input, authorised, timeout_reached, check_unspent,
  check_pend_replacement, check_entries,
}
use belcoin.Verify.Dummy.{dummy_input_burns}
use belcoin.TxnWrapper.{wrap}
use belcoin.Block.{update_pend}
use belcoin.Block.Locked.{update_pend-keeps_locked}
use belcoin.Verify.{timelock_over}
use belcoin.Block.Progress.{IsPlain}
use belcoin.Fetch.{req_txn, missing_of, try_process}
use belcoin.Fetch.Peers.{req_txn-asks_all}
use belcoin.Fetch.Progress.{try_process-finishes}
use belcoin.Tests.{toy, input, output, transaction, pay, node_with_coin, node_with_block, block_of}
use belcoin.Tests.Examples.{coin_indexed, node_with_coin-IsSound}

node_with_block-IsSound : IsSound ⦃E = toy⦄ node_with_block
node_with_block-IsSound = record {
  keyed = λ k w e. ground arith;
  sized = λ k w e. ground arith;
  pend_keyed = λ k w e. ground arith;
  pool_keyed = λ k t e. ground arith;
  pooled = λ k e. ground arith;
  once = (refl, tt);
  indexed = λ p (k, i). coin_indexed p k i;
}

all_there : missing_of ⦃E = toy⦄ node_with_block (8 ∷ []) ≡ []
unfolding missing_of
all_there = refl

pay-IsPlain :
    (k : Bytes) (txn : Transaction)
    → elem k (8 ∷ []) ≡ true
    → lookup k ((8, pay) ∷ []) ≡ some txn
    → IsPlain ⦃E = toy⦄ txn
pay-IsPlain k txn e there =
    let same : pay ≡ txn = ground arith in
    subst (IsPlain ⦃E = toy⦄) same (((λ n. ground arith), tt), refl)

try_process-finishes_example :
    let (r, s') = try_process ⦃E = toy⦄ node_with_block in
    (r ≡ ok tt)
    × (s'.block_queue ≡ [])
    × (s'.processing ≡ false)
    × (s'.processing_block ≡ false)
    × (s'.current_time ≡ 5)
try_process-finishes_example =
    try_process-finishes ⦃E = toy⦄ node_with_block (block_of (8 ∷ [])) [] node_with_block-IsSound
      refl refl all_there (refl, tt) pay-IsPlain

-- The coin, and then a dummy.
abbrev with_dummy : Transaction
with_dummy = transaction 12 (input 12 7 0 1 ∷ input 12 0 0 1 ∷ []) (output 10 3 ∷ [])

with_dummy_verified : (verify_txn ⦃E = toy⦄ true with_dummy node_with_coin).0 ≡ ok true
unfolding verify_txn verify_inputs verify_input authorised timeout_reached check_unspent
    check_pend_replacement check_entries
with_dummy_verified = refl

dummy_input_burns_example :
    ((write_txn_to_db ⦃E = toy⦄ with_dummy 5 node_with_coin).0 ≡ err key_error)
    × (lookup 12 (write_txn_to_db ⦃E = toy⦄ with_dummy 5 node_with_coin).1.db ≡ none)
    × ((r : Ref)
        → unspent ⦃E = toy⦄ (write_txn_to_db ⦃E = toy⦄ with_dummy 5 node_with_coin).1 r
          ≡ (if ref_elem r ((7, 0) ∷ []) then some false else unspent ⦃E = toy⦄ node_with_coin r))
dummy_input_burns_example =
    dummy_input_burns ⦃E = toy⦄ with_dummy 5 node_with_coin (input 12 7 0 1 ∷ []) (input 12 0 0 1)
      [] node_with_coin-IsSound refl ((λ e. ground arith), tt) refl refl with_dummy_verified

-- The payment with a timelock.
abbrev locked_pay : Transaction
locked_pay = record pay { timelock = 3 }

abbrev node_with_locked : Node ⦃E = toy⦄
node_with_locked = record node_with_coin { pend = (8, wrap locked_pay 5) ∷ [] }

node_with_locked-IsSound : IsSound ⦃E = toy⦄ node_with_locked
node_with_locked-IsSound = record {
  keyed = λ k w e. ground arith;
  sized = λ k w e. ground arith;
  pend_keyed = λ k w e. ground arith;
  pool_keyed = λ k t e. ground arith;
  pooled = λ k e. ground arith;
  once = tt;
  indexed = λ p (k, i). coin_indexed p k i;
}

not_over : timelock_over 0 (wrap locked_pay 5) ≡ false
unfolding timelock_over
not_over = refl

update_pend-keeps_locked_example :
    lookup 8 (update_pend ⦃E = toy⦄ node_with_locked).1.pend ≡ some (wrap locked_pay 5)
update_pend-keeps_locked_example =
    update_pend-keeps_locked ⦃E = toy⦄ node_with_locked 8 (wrap locked_pay 5)
      node_with_locked-IsSound refl not_over

abbrev other_peers : List ℕ
other_peers = 11 ∷ 12 ∷ []

req_txn-asks_all_example :
    (k : ℕ) × (k < 3) × (req_txn {A = ℕ} (10 ∷ other_peers) (4 + k) ≡ ok (some 11, 4 + k + 1))
req_txn-asks_all_example = req_txn-asks_all {A = ℕ} 10 other_peers 4 1 (omega arith)
