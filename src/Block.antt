-- ===== src/Block.antt =====
-- Blocks: `process_block`, `update_pend` and `add_block_to_queue` of belcoin_node/storage.py. What is
-- printed, and the time that is measured for it, is left out; so are the branches that only VERBOSE
-- switches on.
pub mod Sound
pub mod Same
pub mod Replicas
pub mod Beside
pub mod Progress
pub mod Locked
use belcoin.Prelude.{◌+◌, Bool, true, false, none, some, List, [], ◌∷◌, ◌++◌, ◌==◌, if◌then◌else◌}
use belcoin.Tesseract.{Bytes, Transaction}
use belcoin.Exec.{
  Exec, ok, err, index_error, invalid_transaction_error, pure, raise, gets, or_raise, modify,
  for_each, ◌>>=◌, ◌>>◌,
}
use belcoin.TxnWrapper.{TxnWrapper}
use belcoin.State.{Env, Node, Block}
use belcoin.Mempool.{remove_from_mempool}
use belcoin.Ledger.{write_txn_to_db, write_txn_to_pend, del_from_pending}
use belcoin.Verify.{verify_txn, timelock_over}

module _ ⦃E : Env⦄ where
  open E use {wrappers as W, transactions as T}

  unfoldable pub count_accepted : Node → Node
  count_accepted s = record s { txns_accepted = s.txns_accepted + 1 }

  unfoldable pub count_processed : Node → Node
  count_processed s = record s { txns_processed = s.txns_processed + 1 }

  -- The body of `if self.verify_txn(txn):`.
  unfoldable pub accept_txn : Transaction → Exec Node (Unit {0})
  accept_txn txn = do
    ts ← gets (λ s. s.current_time)
    if txn.timelock == 0 then write_txn_to_db txn ts else write_txn_to_pend txn ts
    modify count_accepted

  -- One round of the loop of `process_block`. The source goes on to test `txn is None` after it has
  -- raised for that case, so its second test never holds.
  unfoldable pub process_txn : Bytes → Exec Node (Unit {0})
  process_txn txid = do
    txn ← or_raise (← gets (λ s. T.get s.mempool txid)) invalid_transaction_error
    valid ← verify_txn true txn
    if valid then accept_txn txn else pure tt
    modify count_processed
    modify (remove_from_mempool txid)

  -- `del self.block_queue[0]` to the end, at the queue as it is
  unfoldable pub drop_block : List Block → Exec Node (Unit {0})
  drop_block [] = raise index_error
  drop_block (_ ∷ queue) = modify λ s. record s {
    block_queue = queue;
    current_block = [];
    processing = false;
    processing_block = false;
  }

  unfoldable pub finish_block : Exec Node (Unit {0})
  unfolding drop_block
  finish_block = do queue ← gets (λ s. s.block_queue); drop_block queue

  unfoldable pub begin_block : Node → Node
  begin_block s = record s { processing_block = true }

  unfoldable pub process_block : List Bytes → Exec Node (Unit {0})
  process_block block = do modify begin_block; for_each block process_txn; finish_block

  -- What `update_pend` does with a transaction whose timelock is over.
  unfoldable pub release : TxnWrapper → Exec Node (Unit {0})
  release w = do
    modify (del_from_pending w.txn)
    valid ← verify_txn false w.txn
    if valid then write_txn_to_db w.txn w.timestamp else pure tt

  unfoldable pub release_if_due : Bytes × TxnWrapper → Exec Node (Unit {0})
  release_if_due (_, w) = do
    now ← gets (λ s. s.current_time)
    if timelock_over now w then release w else pure tt

  -- The iteration goes over the entries that are there when it begins.
  unfoldable pub update_pend : Exec Node (Unit {0})
  update_pend = do entries ← gets (λ s. W.entries s.pend); for_each entries release_if_due

  unfoldable pub enqueue : Block → Node → Node
  enqueue block s = record s { block_queue = s.block_queue ++ (block ∷ []) }

  -- The body of the replicated `add_block_to_queue`, which Raft runs on every node when the entry is
  -- committed.
  unfoldable pub add_block_to_queue : Block → Exec Node (Unit {0})
  add_block_to_queue block = do update_pend; modify (enqueue block)
