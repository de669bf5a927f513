-- ===== src/Tests.antt =====
-- The data of the examples: toy cryptography, databases in memory, and a ledger with one coin.
mod Examples
mod Services
mod Octets
mod Progress
mod Consensus
mod Races
use belcoin.Prelude.{ℕ, ◌+◌, true, false, List, [], ◌∷◌, ◌==◌}
use belcoin.Tesseract.{Bytes, Input, Output, Transaction, Crypto}
use belcoin.Exec.{type_error}
use belcoin.TxnWrapper.{TxnWrapper, wrap}
use belcoin.Dict.{Dict}
use belcoin.Index.{Index}
use belcoin.State.{Env, Node, Block}
use belcoin.Plyvel.Memory.{memory}

-- A signature is the sum of the message and the key, a hash is the successor.
abbrev pub toy_crypto : Crypto
toy_crypto = record {
  no_hash = 0;
  sha256 = λ x. x + 1;
  get_pubkeys = λ o. o.pubkey ∷ o.pubkey2 ∷ o.htlc_pubkey ∷ [];
  verify_sig = λ msg pub_key sig. msg + pub_key == sig;
  not_bytes_error = type_error;
}

abbrev pub toy : Env
toy = record {
  crypto = toy_crypto;
  wrappers = memory TxnWrapper;
  transactions = memory Transaction;
}

abbrev pub output : ℕ → Bytes → Output
output amount owner = record {
  amount = amount;
  pubkey = owner;
  pubkey2 = owner;
  htlc_timeout = 0;
  htlc_hashlock = 0;
  htlc_pubkey = owner;
}

-- The owner's input for the transaction with the hash `msg`.
abbrev pub input : Bytes → Bytes → ℕ → Bytes → Input
input msg txid index owner = record {
  txid = txid;
  index = index;
  signature = msg + owner;
  signature2 = msg + owner;
  htlc_preimage = 0;
  htlc_signature = 0;
}

abbrev pub transaction : Bytes → List Input → List Output → Transaction
transaction txid inputs outputs = record {
  txid = txid;
  inputs = inputs;
  outputs = outputs;
  seq = 0;
  timelock = 0;
}

-- Ten coins of owner 1.
abbrev pub coin : Transaction
coin = transaction 7 [] (output 10 1 ∷ [])

-- Owner 1 pays 4 of them to owner 2.
abbrev pub pay : Transaction
pay = transaction 8 (input 8 7 0 1 ∷ []) (output 4 2 ∷ output 6 1 ∷ [])

-- Owner 1 pays all of them to owner 3.
abbrev pub pay_again : Transaction
pay_again = transaction 9 (input 9 7 0 1 ∷ []) (output 10 3 ∷ [])

-- The same output twice, for twice the amount.
abbrev pub pay_twice : Transaction
pay_twice = transaction 10 (input 10 7 0 1 ∷ input 10 7 0 1 ∷ []) (output 20 1 ∷ [])

-- No inputs and no outputs.
abbrev pub empty : Transaction
empty = transaction 11 [] []

abbrev pub node :
    Dict TxnWrapper → Dict TxnWrapper → Dict Transaction → List Bytes → List Block → Node ⦃E = toy⦄
node db pend mempool mempool_list block_queue = record {
  db = db;
  pend = pend;
  mempool = mempool;
  mempool_list = mempool_list;
  pub_outs = (1, (7, 0) ∷ []) ∷ [];
  pub_outs_pend = [];
  missing_txns = [];
  block_queue = block_queue;
  current_block = [];
  processing = false;
  processing_block = false;
  adding_block = false;
  current_time = 0;
  invalid_txns = [];
  txns_processed = 0;
  txns_accepted = 0;
  txns_received = 0;
  missed_counter = 0;
  tickctr = 0;
  testing = false;
  sent = [];
}

abbrev pub coin_db : Dict TxnWrapper
coin_db = (7, wrap coin 0) ∷ []

-- The coin in the ledger, and nothing else.
abbrev pub node_with_coin : Node ⦃E = toy⦄
node_with_coin = node coin_db [] [] [] []

abbrev pub block_of : List Bytes → Block
block_of txns = record { time = 5; txns = txns }

-- The payment in the mempool, and a block with it in the queue.
abbrev pub node_with_block : Node ⦃E = toy⦄
node_with_block = node coin_db [] ((8, pay) ∷ []) (8 ∷ []) (block_of (8 ∷ []) ∷ [])

abbrev pub node_with_empty : Node ⦃E = toy⦄
node_with_empty = node coin_db [] ((11, empty) ∷ []) (11 ∷ []) (block_of (11 ∷ []) ∷ [])
