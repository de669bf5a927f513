-- ===== src/Tests/Examples.antt =====
-- The theorems at concrete states.
use belcoin.Prelude.{
  zero, suc, ℕ, ◌+◌, ◌≡◌, ◌≢◌, ◌↔◌, refl, true, false, some, List, [], ◌∷◌, arith, ◌==◌,
  if◌then◌else◌, All, inl,
}
use belcoin.Tesseract.{Transaction}
use belcoin.Exec.{ok, err, unbound_local_error, for_each}
use belcoin.TxnWrapper.{wrap}
use belcoin.Index.{has_ref, Ref, ref_elem}
use belcoin.State.{Node}
use belcoin.Mempool.Sound.{owned_by, IsSound}
use belcoin.Ledger.{input_refs, write_txn_to_db, store, spend, spend_at, spend_output}
use belcoin.Ledger.Spend.{IsPresent, unspent, bit_of}
use belcoin.Ledger.Value.{ledger_value}
use belcoin.Verify.{
  verify_txn, verify_inputs, verify_input, authorised, timeout_reached, check_unspent,
  check_pend_replacement, check_entries, no_match,
}
use belcoin.Verify.Accepts.{IsAcceptable, verify_txn-accepts_iff}
use belcoin.Verify.Conserve.{verified-conserves}
use belcoin.Verify.Spending.{no_double_spend, write_txn_to_db-unspent}
use belcoin.Verify.Mint.{repeated_input_mints}
use belcoin.Block.{process_txn}
use belcoin.Block.Same.{SameLedger}
use belcoin.Block.Replicas.{replicas_agree}
use belcoin.Fetch.{found, missing_of, try_process, transaction_received}
use belcoin.Fetch.Stuck.{verify_txn-no_real_input, poison_block, late_reply-drops_block}
use belcoin.Event.{Event, commit, loop, reply, put, lead, Process, run}
use belcoin.Event.Invariant.{run-IsSound}
use belcoin.Dict.{lookup}
use belcoin.Tests.{
  toy, output, input, pay, pay_again, pay_twice, empty, coin, coin_db, node, node_with_coin,
  node_with_block, node_with_empty, block_of,
}

pub coin_indexed :
    (p k i : ℕ)
    → has_ref node_with_coin.pub_outs p (k, i) ≡ owned_by ⦃E = toy⦄ (lookup k coin_db) p i
unfolding has_ref
coin_indexed p k zero = ground arith
coin_indexed p k (suc i) = ground arith

pub node_with_coin-IsSound : IsSound ⦃E = toy⦄ node_with_coin
node_with_coin-IsSound = record {
  keyed = λ k w e. ground arith;
  sized = λ k w e. ground arith;
  pend_keyed = λ k w e. ground arith;
  pool_keyed = λ k t e. ground arith;
  pooled = λ k e. ground arith;
  once = tt;
  indexed = λ p (k, i). coin_indexed p k i;
}

abbrev payment_events : List Event
payment_events =
    put pay true
    ∷ lead 5
    ∷ commit (block_of (8 ∷ 9 ∷ []))
    ∷ loop
    ∷ reply (found pay_again) 1 9
    ∷ loop
    ∷ []

abbrev started : Process ⦃E = toy⦄
started = record { node = node_with_coin; ticking = true; looping = true }

run-IsSound_example : IsSound ⦃E = toy⦄ (run ⦃E = toy⦄ payment_events started).node
run-IsSound_example =
    run-IsSound ⦃E = toy⦄ payment_events started (tt, (tt, (tt, (tt, (refl, (tt, tt))))))
      node_with_coin-IsSound

verify_txn-accepts_iff_example :
    ((verify_txn ⦃E = toy⦄ true pay node_with_coin).0 ≡ ok true)
    ↔ IsAcceptable ⦃E = toy⦄ true pay node_with_coin
verify_txn-accepts_iff_example = verify_txn-accepts_iff ⦃E = toy⦄ true pay node_with_coin

pay_verified : (verify_txn ⦃E = toy⦄ true pay node_with_coin).0 ≡ ok true
unfolding verify_txn verify_inputs verify_input authorised timeout_reached check_unspent
    check_pend_replacement check_entries
pay_verified = refl

nothing_pending :
    (txn : Transaction) → check_pend_replacement ⦃E = toy⦄ txn node_with_coin ≡ no_match
unfolding check_pend_replacement check_entries
nothing_pending txn = refl

verified-conserves_example :
    ((write_txn_to_db ⦃E = toy⦄ pay 5 node_with_coin).0 ≡ ok tt)
    × (ledger_value ⦃E = toy⦄ (write_txn_to_db ⦃E = toy⦄ pay 5 node_with_coin).1
        ≡ ledger_value ⦃E = toy⦄ node_with_coin)
verified-conserves_example =
    verified-conserves ⦃E = toy⦄ pay 5 node_with_coin pay_verified (nothing_pending pay)
      ((λ e. ground arith), tt) (refl, tt)

pay_inputs-IsPresent : All (IsPresent ⦃E = toy⦄ node_with_coin) pay.inputs
pay_inputs-IsPresent = ((wrap coin 0, output 10 1, refl, refl, omega arith), tt)

write_txn_to_db-unspent_example :
    ((write_txn_to_db ⦃E = toy⦄ pay 5 node_with_coin).0 ≡ ok tt)
    × ((r : Ref)
        → unspent ⦃E = toy⦄ (write_txn_to_db ⦃E = toy⦄ pay 5 node_with_coin).1 r ≡ (
            if 8 == r.0
            then bit_of ⦃E = toy⦄ (some (wrap pay 5)) r.1
            else if ref_elem r (input_refs pay.inputs)
            then some false
            else unspent ⦃E = toy⦄ node_with_coin r))
write_txn_to_db-unspent_example =
    write_txn_to_db-unspent ⦃E = toy⦄ pay 5 node_with_coin pay_inputs-IsPresent

still_nothing_pending :
    check_pend_replacement ⦃E = toy⦄ pay_again (write_txn_to_db ⦃E = toy⦄ pay 5 node_with_coin).1
    ≡ no_match
unfolding check_pend_replacement check_entries write_txn_to_db store for_each spend spend_at
    spend_output
still_nothing_pending = refl

nothing_missing : missing_of ⦃E = toy⦄ node_with_empty (11 ∷ []) ≡ []
unfolding missing_of
nothing_missing = refl

no_double_spend_example :
    (verify_txn ⦃E = toy⦄ true pay_again (write_txn_to_db ⦃E = toy⦄ pay 5 node_with_coin).1).0
    ≢ ok true
no_double_spend_example =
    no_double_spend ⦃E = toy⦄ pay 5 node_with_coin pay_again (input 9 7 0 1) refl
      pay_inputs-IsPresent refl (inl refl) (λ e. ground arith) still_nothing_pending

repeated_input_mints_example :
    ((verify_txn ⦃E = toy⦄ true pay_twice node_with_coin).0 ≡ ok true)
    × (ledger_value ⦃E = toy⦄ (write_txn_to_db ⦃E = toy⦄ pay_twice 5 node_with_coin).1
        ≡ ledger_value ⦃E = toy⦄ node_with_coin + 10)
repeated_input_mints_example =
    repeated_input_mints ⦃E = toy⦄ pay_twice 5 node_with_coin (input 10 7 0 1) (input 10 7 0 1)
      (wrap coin 0) (output 10 1) refl refl refl refl (λ e. ground arith) refl refl refl
      (nothing_pending pay_twice) (inl (omega arith, refl, refl)) (inl (omega arith, refl, refl))
      refl

verify_txn-no_real_input_example :
    verify_txn ⦃E = toy⦄ true empty node_with_coin ≡ (err unbound_local_error, node_with_coin)
verify_txn-no_real_input_example =
    verify_txn-no_real_input ⦃E = toy⦄ empty node_with_coin refl refl refl

poison_block_example :
    ((try_process ⦃E = toy⦄ node_with_empty).0 ≡ err unbound_local_error)
    × ((try_process ⦃E = toy⦄ node_with_empty).1.block_queue ≡ block_of (11 ∷ []) ∷ [])
    × (try_process ⦃E = toy⦄ (try_process ⦃E = toy⦄ node_with_empty).1
        ≡ (ok tt, (try_process ⦃E = toy⦄ node_with_empty).1))
poison_block_example =
    poison_block ⦃E = toy⦄ node_with_empty (block_of (11 ∷ [])) [] empty 11 [] refl refl refl
      nothing_missing refl refl refl refl

late_reply-drops_block_example :
    let (r, s') = transaction_received ⦃E = toy⦄ (found pay) 1 8 node_with_block in
    (r ≡ ok tt)
    × (s'.block_queue ≡ [])
    × (s'.db ≡ coin_db)
    × (s'.pend ≡ [])
    × (s'.pub_outs ≡ node_with_block.pub_outs)
    × (s'.txns_processed ≡ 0)
late_reply-drops_block_example =
    late_reply-drops_block ⦃E = toy⦄ node_with_block (block_of (8 ∷ [])) [] pay 1 8 refl refl refl
      refl

-- Another order of arrival, another transaction in the mempool, and other counters.
abbrev other_node : Node ⦃E = toy⦄
other_node = record (node coin_db [] ((9, pay_again) ∷ (8, pay) ∷ []) (9 ∷ 8 ∷ []) []) {
  txns_processed = 4;
}

same_ledger : SameLedger ⦃E = toy⦄ (8 ∷ []) node_with_block other_node
same_ledger = record {
  db = refl;
  pend = refl;
  pub_outs = refl;
  pub_outs_pend = refl;
  current_time = refl;
  pool = λ k i. ground arith;
}

replicas_agree_example :
    ((for_each (8 ∷ []) (process_txn ⦃E = toy⦄) node_with_block).0
      ≡ (for_each (8 ∷ []) (process_txn ⦃E = toy⦄) other_node).0)
    × SameLedger ⦃E = toy⦄
        (8 ∷ [])
        (for_each (8 ∷ []) (process_txn ⦃E = toy⦄) node_with_block).1
        (for_each (8 ∷ []) (process_txn ⦃E = toy⦄) other_node).1
replicas_agree_example = replicas_agree ⦃E = toy⦄ (8 ∷ []) node_with_block other_node same_ledger
