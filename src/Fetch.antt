-- ===== src/Fetch.antt =====
-- How a node takes the next block and gets the transactions that it lacks: `try_process`,
-- `find_missing_transactions`, `request_missing_transactions`, `request_missing_transaction`,
-- `req_txn`, `transaction_received` and `transaction_receive_error` of belcoin_node/storage.py, with
-- the reactor running. A call that is handed to the reactor is listed in `sent`.
pub mod Sound
pub mod Stuck
pub mod Progress
pub mod Peers
use belcoin.Prelude.{
  ℕ, ◌+◌, ◌%◌, Bool, true, false, not, ◌&&◌, Option, none, some, List, [], ◌∷◌, ltb, ◌==◌,
  if◌then◌else◌, is_some, remove_first, length, get_elem?,
}
use belcoin.Tesseract.{Bytes, Transaction}
use belcoin.Config.{backoff_amount}
use belcoin.Exec.{
  Exec, Result, ok, err, attribute_error, zero_division_error, pure, raise, gets, modify, for_each,
  catch, ◌>>=◌, ◌>>◌,
}
use belcoin.State.{Env, Node, Block, call_req_txn}
use belcoin.Mempool.{add_to_mempool}
use belcoin.Block.{process_block}

-- What the peer's `jsonrpc_req_txn` answers: 0, None, or a transaction.
pub data Reply : Type 0 where
  not_found : Reply
  was_invalid : Reply
  found : Transaction → Reply

abbrev pub is_nil {ℓ} : {A : Type ℓ} → List A → Bool
is_nil [] = true
is_nil (x ∷ xs) = false

-- `rpc_peers[i % len(rpc_peers)]` of `req_txn`, after `i += 1`: the peer asked, and the attempt's
-- number, which the callbacks are given.
unfoldable pub req_txn : {A : Type 0} → List A → ℕ → Result (Option A × ℕ)
req_txn [] i = err zero_division_error
req_txn (p ∷ peers) i = ok (get_elem? (p ∷ peers) ((i + 1) % length (p ∷ peers)), i + 1)

module _ ⦃E : Env⦄ where
  open E use {transactions as T}

  unfoldable pub missing_of : Node → List Bytes → List Bytes
  missing_of s [] = []
  missing_of s (txid ∷ block) = elim (T.get s.mempool txid) [
    | none ↦ txid ∷ missing_of s block
    | some _ ↦ missing_of s block
  ]

  unfoldable pub push_call : Bytes → ℕ → Node → Node
  push_call txid i s = record s { sent = call_req_txn txid i ∷ s.sent }

  -- `callFromThread(self.req_txn, txnid, i)`
  unfoldable pub call_later : Bytes → ℕ → Exec Node (Unit {0})
  unfolding push_call
  call_later txid i = modify (push_call txid i)

  unfoldable pub forget_missing : Bytes → Node → Node
  forget_missing txid s = record s { missing_txns = remove_first txid s.missing_txns }

  -- `len(self.missing_txns) == 0` and `not self.processing_block`
  unfoldable pub is_complete : Node → Bool
  is_complete s = is_nil s.missing_txns && not s.processing_block

  -- `if txid in self.missing_txns:` and on: the block is processed if nothing is missing, and `other`
  -- is done if not.
  unfoldable pub resume_or : Exec Node (Unit {0}) → Bytes → Exec Node (Unit {0})
  unfolding forget_missing is_complete
  resume_or other txid = do
    modify (forget_missing txid)
    complete ← gets is_complete
    block ← gets (λ s. s.current_block)
    if complete then process_block block else other

  unfoldable pub request_missing_transaction : Bytes → ℕ → Exec Node (Unit {0})
  unfolding resume_or call_later
  request_missing_transaction txid i = do
    txn ← gets (λ s. T.get s.mempool txid)
    if (i % 5 == 0) && is_some txn then resume_or (call_later txid i) txid else call_later txid i

  -- The list is not changed during this loop: each transaction in it is missing from the mempool.
  unfoldable pub request_missing_transactions : Exec Node (Unit {0})
  request_missing_transactions = do
    missing ← gets (λ s. s.missing_txns)
    for_each missing (λ txid. request_missing_transaction txid 0)

  unfoldable pub set_missing : List Bytes → Node → Node
  set_missing block s = record s { missing_txns = missing_of s block }

  unfoldable pub find_missing_transactions : List Bytes → Exec Node (Unit {0})
  unfolding set_missing
  find_missing_transactions block = do
    modify (set_missing block)
    missing ← gets (λ s. s.missing_txns)
    if is_nil missing then process_block block else request_missing_transactions

  unfoldable pub take_block : Block → Node → Node
  take_block block s = record s {
    current_time = block.time;
    current_block = block.txns;
    processing = true;
    adding_block = false;
    missing_txns = missing_of s block.txns;
  }

  unfoldable pub set_missed : ℕ → Node → Node
  set_missed n s = record s { missed_counter = n }

  unfoldable pub stop_processing : Node → Node
  stop_processing s = record s { processing = false }

  unfoldable pub fetch_now : List Bytes → Exec Node (Unit {0})
  unfolding set_missed
  fetch_now block = do modify (set_missed 0); find_missing_transactions block

  -- The body of `if len(self.missing_txns) > 0:` in `try_process`.
  unfoldable pub back_off : List Bytes → Exec Node (Unit {0})
  unfolding set_missed stop_processing
  back_off block = do
    missed ← gets (λ s. s.missed_counter + 1)
    modify (set_missed missed)
    if ltb backoff_amount missed then fetch_now block else modify stop_processing

  -- The body of `if len(self.block_queue) > 0:`, at the queue as it is.
  unfoldable pub start_block : List Block → Exec Node (Unit {0})
  unfolding take_block
  start_block [] = pure tt
  start_block (block ∷ _) = do
    modify (take_block block)
    missing ← gets (λ s. s.missing_txns)
    if is_nil missing then process_block block.txns else back_off block.txns

  unfoldable pub try_process : Exec Node (Unit {0})
  try_process = do
    busy ← gets (λ s. s.processing)
    queue ← gets (λ s. s.block_queue)
    if busy then pure tt else start_block queue

  -- `add_to_mempool(tx)`, where the access to `tx.txid` raises for None
  unfoldable pub add_received : Option Transaction → Exec Node (Unit {0})
  add_received none = raise attribute_error
  add_received (some tx) = modify (add_to_mempool tx)

  -- `if self.mempool[txid] is None: self.add_to_mempool(tx)`, where `tx` may be None
  unfoldable pub add_reply : Option Transaction → Bytes → Exec Node (Unit {0})
  add_reply tx txid = do
    known ← gets (λ s. T.get s.mempool txid)
    if is_some known then pure tt else add_received tx

  unfoldable pub transaction_received : Reply → ℕ → Bytes → Exec Node (Unit {0})
  transaction_received not_found i txid = request_missing_transaction txid i
  transaction_received was_invalid i txid = do add_reply none txid; resume_or (pure tt) txid
  transaction_received (found tx) i txid = do add_reply (some tx) txid; resume_or (pure tt) txid

  unfoldable pub transaction_receive_error : ℕ → Bytes → Exec Node (Unit {0})
  transaction_receive_error i txid = request_missing_transaction txid i

  -- The callback and the errback that `req_txn` adds, in this order.
  unfoldable pub on_reply : Reply → ℕ → Bytes → Exec Node (Unit {0})
  on_reply reply i txid =
      catch (transaction_received reply i txid) (transaction_receive_error i txid)
