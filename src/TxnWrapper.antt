-- ===== src/TxnWrapper.antt =====
-- `TxnWrapper` of belcoin_node/txnwrapper.py: a transaction with its timestamp and, for each of its
-- outputs, whether it is unspent.
use belcoin.Prelude.{ℕ, Bool, true, List, map}
use belcoin.Tesseract.{Transaction}

pub record TxnWrapper : Type 0 where
  pub txn : Transaction
  pub timestamp : ℕ
  pub utxos : List Bool

-- `TxnWrapper(tx, ts)`, with the default for `utxos`
abbrev pub wrap : Transaction → ℕ → TxnWrapper
wrap tx ts = record { txn = tx; timestamp = ts; utxos = map (λ _. true) tx.outputs }
