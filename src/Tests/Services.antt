-- ===== src/Tests/Services.antt =====
-- The theorems on the start of a node, its proposals, its listings and its answers, at concrete
-- states.
use belcoin.Prelude.{ℕ, zero, suc, ◌≡◌, ◌≢◌, ◌⊎◌, inl, refl, true, false, List, [], ◌∷◌, map, arith}
use belcoin.Tesseract.{Transaction}
use belcoin.Exec.{ok, err, key_error}
use belcoin.TxnWrapper.{wrap}
use belcoin.Dict.{lookup}
use belcoin.Index.{Ref, ref_elem, refs_of, has_ref}
use belcoin.State.{Node, Block, propose}
use belcoin.Mempool.Sound.{IsSound, owned_by}
use belcoin.Verify.{timeout_reached, authorised, verify_input, verify_inputs, verify_txn}
use belcoin.Verify.Effect.{verify_txn-leaves_ledger}
use belcoin.Fetch.{found}
use belcoin.Fetch.Sound.{Answers}
use belcoin.Propose.{leader_tick}
use belcoin.Propose.Safety.{IsProposal, leader_tick-IsProposal}
use belcoin.Query.{UtxoGrpc, utxos_of, utxos_grpc_of, utxos_for_pubkey, utxos_for_pubkey_grpc}
use belcoin.Query.Listings.{in_seconds, utxos_for_pubkey-pending, utxos_for_pubkey-grpc}
use belcoin.Query.Complete.{utxos_for_pubkey_grpc_complete}
use belcoin.Rpc.{jsonrpc_puttxn, jsonrpc_req_txn}
use belcoin.Rpc.Replies.{jsonrpc_req_txn-Answers}
use belcoin.Start.{init, restart}
use belcoin.Start.Sound.{IsUnspentDb, init-IsSound}
use belcoin.Start.Restart.{restart-lists_spent, restart-forgets_pooled}
use belcoin.Tests.{toy, output, pay, coin, coin_db, node, node_with_coin, node_with_block}
use belcoin.Tests.Examples.{node_with_coin-IsSound}

empty-IsUnspentDb : IsUnspentDb ⦃E = toy⦄ []
empty-IsUnspentDb = record { keyed = λ k w e. cc; unspent = λ k w e. cc }

init-IsSound_example : IsSound ⦃E = toy⦄ (init ⦃E = toy⦄ (coin ∷ []) [] [] [])
init-IsSound_example =
    init-IsSound ⦃E = toy⦄ (coin ∷ []) [] [] [] empty-IsUnspentDb (λ k w e. cc) (λ k t e. cc)

-- The coin, spent by `pay`, which is stored too.
abbrev node_with_spent : Node ⦃E = toy⦄
node_with_spent =
    record (node ((7, record { txn = coin; timestamp = 0; utxos = false ∷ [] }) ∷ []) [] [] [] []) {
      pub_outs = [];
    }

spent_indexed :
    (p k i : ℕ)
    → has_ref [] p (k, i)
      ≡ owned_by ⦃E = toy⦄
          (lookup k ((7, record { txn = coin; timestamp = 0; utxos = false ∷ [] }) ∷ []))
          p
          i
unfolding has_ref
spent_indexed p k zero = ground arith
spent_indexed p k (suc i) = ground arith

node_with_spent-IsSound : IsSound ⦃E = toy⦄ node_with_spent
node_with_spent-IsSound = record {
  keyed = λ k w e. ground arith;
  sized = λ k w e. ground arith;
  pend_keyed = λ k w e. ground arith;
  pool_keyed = λ k t e. ground arith;
  pooled = λ k e. ground arith;
  once = tt;
  indexed = λ p (k, i). spent_indexed p k i;
}

restart-lists_spent_example :
    (has_ref node_with_spent.pub_outs 1 (7, 0) ≡ false)
    × (has_ref (restart ⦃E = toy⦄ (coin ∷ []) node_with_spent).pub_outs 1 (7, 0) ≡ true)
restart-lists_spent_example =
    restart-lists_spent ⦃E = toy⦄ (coin ∷ []) node_with_spent 7 1 0
      (record { txn = coin; timestamp = 0; utxos = false ∷ [] }) (output 10 1)
      node_with_spent-IsSound refl refl refl refl

restart-forgets_pooled_example :
    ((jsonrpc_puttxn ⦃E = toy⦄ pay true (restart ⦃E = toy⦄ (coin ∷ []) node_with_block)).0 ≡ false)
    × ((jsonrpc_puttxn ⦃E = toy⦄ pay true
          (restart ⦃E = toy⦄ (coin ∷ []) node_with_block)).1.mempool_list
        ≡ [])
restart-forgets_pooled_example =
    restart-forgets_pooled ⦃E = toy⦄ (coin ∷ []) node_with_block pay pay true refl

-- The leader has waited long enough.
abbrev leader : Node ⦃E = toy⦄
leader = record node_with_block { tickctr = 1_000_000_000; block_queue = [] }

leader_tick-IsProposal_example :
    ((leader_tick ⦃E = toy⦄ 5 leader).sent ≡ [])
    ⊎ ((b : Block) × ((leader_tick ⦃E = toy⦄ 5 leader).sent ≡ propose b ∷ [])
        × ((leader_tick ⦃E = toy⦄ 5 leader).adding_block ≡ true)
        × IsProposal ⦃E = toy⦄ 5 leader b)
leader_tick-IsProposal_example = leader_tick-IsProposal ⦃E = toy⦄ 5 leader

-- A pending transaction with an output for owner 2.
abbrev node_with_pending : Node ⦃E = toy⦄
node_with_pending = record (node coin_db ((8, wrap pay 5) ∷ []) [] [] []) {
  pub_outs_pend = (2, (8, 0) ∷ []) ∷ [];
}

nothing_stored : utxos_of ⦃E = toy⦄ node_with_pending (refs_of node_with_pending.pub_outs 2) ≡ ok []
unfolding utxos_of
nothing_stored = refl

utxos_for_pubkey-pending_example : utxos_for_pubkey ⦃E = toy⦄ node_with_pending 2 ≡ err key_error
utxos_for_pubkey-pending_example =
    utxos_for_pubkey-pending ⦃E = toy⦄ node_with_pending 2 (8, 0) [] nothing_stored (inl refl) refl

abbrev coin_listed : List UtxoGrpc
coin_listed = record { ref = (7, 0); output = output 10 1; ts = 0 } ∷ []

lists_coin : utxos_for_pubkey_grpc ⦃E = toy⦄ node_with_coin 1 ≡ ok coin_listed
unfolding utxos_for_pubkey_grpc utxos_grpc_of
lists_coin = refl

utxos_for_pubkey-grpc_example :
    utxos_for_pubkey ⦃E = toy⦄ node_with_coin 1 ≡ ok (map in_seconds coin_listed)
utxos_for_pubkey-grpc_example =
    utxos_for_pubkey-grpc ⦃E = toy⦄ node_with_coin 1 coin_listed refl lists_coin

utxos_for_pubkey_grpc_complete_example :
    (us : List UtxoGrpc) × (utxos_for_pubkey_grpc ⦃E = toy⦄ node_with_coin 1 ≡ ok us)
    × ((r : Ref) → ref_elem r (map (λ u. u.ref) us) ≡ owned_by ⦃E = toy⦄ (lookup r.0 coin_db) 1 r.1)
utxos_for_pubkey_grpc_complete_example =
    utxos_for_pubkey_grpc_complete ⦃E = toy⦄ node_with_coin 1 node_with_coin-IsSound refl

answers_coin : jsonrpc_req_txn ⦃E = toy⦄ 7 node_with_coin ≡ ok (found coin)
unfolding jsonrpc_req_txn
answers_coin = refl

jsonrpc_req_txn-Answers_example : Answers (found coin) 7
jsonrpc_req_txn-Answers_example =
    jsonrpc_req_txn-Answers ⦃E = toy⦄ 7 node_with_coin (found coin) node_with_coin-IsSound
      answers_coin

-- The payment without its signature.
abbrev unsigned : Transaction
unsigned = record pay {
  inputs =
      record {
        txid = 7;
        index = 0;
        signature = 0;
        signature2 = 0;
        htlc_preimage = 0;
        htlc_signature = 0;
      }
      ∷ [];
}

unsigned_refused : (verify_txn ⦃E = toy⦄ true unsigned node_with_coin).0 ≢ ok true
unfolding verify_txn verify_inputs verify_input authorised timeout_reached
unsigned_refused = λ e. cc

verify_txn-leaves_ledger_example :
    ((verify_txn ⦃E = toy⦄ true unsigned node_with_coin).1.db ≡ node_with_coin.db)
    × ((verify_txn ⦃E = toy⦄ true unsigned node_with_coin).1.pend ≡ node_with_coin.pend)
    × ((verify_txn ⦃E = toy⦄ true unsigned node_with_coin).1.pub_outs ≡ node_with_coin.pub_outs)
    × ((verify_txn ⦃E = toy⦄ true unsigned node_with_coin).1.pub_outs_pend
        ≡ node_with_coin.pub_outs_pend)
verify_txn-leaves_ledger_example =
    verify_txn-leaves_ledger ⦃E = toy⦄ true unsigned node_with_coin unsigned_refused
