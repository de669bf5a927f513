-- ===== src/Ledger/Race.antt =====
-- A write of the ledger that two threads interleave: `write_txn_to_db` and the loop over the inputs in
-- `process_block` of belcoin_node/storage.py. A block that Raft commits is taken by SyncObj's own
-- thread (`autoTick` in pysyncobjbc/config.py), which writes pending transactions that are due, while
-- the reactor's thread processes blocks. No lock guards the three steps
-- `output_txnw = self[inp.txid]`, `output_txnw.utxos[inp.index] = False`, `self[inp.txid] = output_txnw`.
use belcoin.Prelude.{
  ◌≡◌, ◌≢◌, ℕ, true, false, none, some, arith, set, get_elem?, get_elem?-set, get_elem?-lt, ◌<◌,
  length, All, ap, sym, ◌∙◌,
}
use belcoin.Tesseract.{Bytes, Input, Output, Transaction}
use belcoin.TxnWrapper.{TxnWrapper}
use belcoin.Index.{ref_elem, has_ref}
use belcoin.Index.Laws.{has_ref-del_out}
use belcoin.State.{Env, Node}
use belcoin.Mempool.Sound.{IsSound, owned_by}
use belcoin.Ledger.{input_refs, spend_output, write_txn_to_db}
use belcoin.Ledger.Spend.{IsPresent, unspent}
use belcoin.Ledger.Sound.{write_txn_to_db-IsSound}
use belcoin.Verify.Spending.{write_txn_to_db-unspent}

module _ ⦃E : Env⦄ where
  open E use {crypto as C, wrappers as W}

  -- The second half of a round, with what was read before
  stale-get :
      (b : Input) (w : TxnWrapper) (o : Output) (s : Node)
      → W.get (spend_output b w o s).db b.txid
        ≡ some (record w { utxos = set w.utxos b.index false })
  unfolding spend_output
  stale-get b w o s =
      ground (arith, W.get-put s.db b.txid b.txid (record w { utxos = set w.utxos b.index false }))

  set-other :
      (w : TxnWrapper) (p : Bytes) (i j : ℕ)
      → i < length w.utxos
      → i ≢ j
      → owned_by (some (record w { utxos = set w.utxos i false })) p j ≡ owned_by (some w) p j
  set-other w p i j lt ne = ground (arith, get_elem?-set w.utxos i j false lt)

  stale-has_ref :
      (b : Input) (w : TxnWrapper) (o : Output) (s : Node) (p : Bytes) (j : ℕ)
      → b.index ≢ j
      → has_ref (spend_output b w o s).pub_outs p (b.txid, j) ≡ has_ref s.pub_outs p (b.txid, j)
  unfolding spend_output
  stale-has_ref b w o s p j ne =
      ground (arith, has_ref-del_out (C.get_pubkeys o) p (b.txid, b.index) (b.txid, j) s.pub_outs)

  spent-owned_by :
      (s : Node) (p : Bytes) (k : Bytes) (j : ℕ)
      → unspent s (k, j) ≡ some false
      → owned_by (W.get s.db k) p j ≡ false
  spent-owned_by s p k j e = ground (arith, e)

  owned-unspent :
      (s : Node) (p : Bytes) (k : Bytes) (j : ℕ)
      → owned_by (W.get s.db k) p j ≡ true
      → unspent s (k, j) ≡ some true
  owned-unspent s p k j e = ground (arith, e)

  -- In a sound state one thread has read a stored transaction to spend one of its outputs. Before it
  -- writes it back, the other thread writes a new transaction to the ledger, whose inputs are all
  -- there and one of which spends another output of that transaction, unspent till then. The first
  -- thread's write makes that output unspent again, and the state is no longer sound: the
  -- ledger has an unspent output that its index does not list.
  pub lost_write :
      (txn : Transaction) (ts : ℕ) (s : Node) (b : Input) (w : TxnWrapper) (o : Output) (p : Bytes)
      (j : ℕ)
      → IsSound s
      → W.get s.db b.txid ≡ some w
      → get_elem? w.txn.outputs b.index ≡ some o
      → W.get s.db txn.txid ≡ none
      → All (IsPresent s) txn.inputs
      → ref_elem (b.txid, j) (input_refs txn.inputs) ≡ true
      → owned_by (W.get s.db b.txid) p j ≡ true
      → b.index ≢ j
      → (unspent (write_txn_to_db txn ts s).1 (b.txid, j) ≡ some false)
        × (unspent (spend_output b w o (write_txn_to_db txn ts s).1) (b.txid, j) ≡ some true)
        × ¬ IsSound (spend_output b w o (write_txn_to_db txn ts s).1)
  lost_write txn ts s b w o p j h stored listed new there named owned ne =
      let inside : b.index < length w.utxos =
        ground (arith, get_elem?-lt w.txn.outputs b.index o listed, h.sized b.txid w stored) in
      let s1 = (write_txn_to_db txn ts s).1 in
      let s2 = spend_output b w o s1 in
      let spent : unspent s1 (b.txid, j) ≡ some false =
        ground
          (arith, (write_txn_to_db-unspent txn ts s there).1 (b.txid, j), stored, new, named) in
      let again : owned_by (W.get s2.db b.txid) p j ≡ true =
        ap (λ v. owned_by v p j) (stale-get b w o s1)
        ∙ set-other w p b.index j inside ne
        ∙ ap (λ v. owned_by v p j) (sym stored)
        ∙ owned in
      let lost : has_ref s2.pub_outs p (b.txid, j) ≡ false =
        stale-has_ref b w o s1 p j ne
        ∙ (write_txn_to_db-IsSound txn ts s h new).indexed p (b.txid, j)
        ∙ spent-owned_by s1 p b.txid j spent in
      (
        spent,
        owned-unspent s2 p b.txid j again,
        λ k. ground (arith, k.indexed p (b.txid, j), again, lost),
      )
