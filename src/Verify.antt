-- ===== src/Verify.antt =====
-- `verify_txn` and `check_pend_replacement` of belcoin_node/storage.py.
pub mod Spendable
pub mod Accepts
pub mod Effect
pub mod Fresh
pub mod Spending
pub mod Conserve
pub mod Mint
pub mod Total
pub mod Dummy
use belcoin.Prelude.{
  ℕ, ◌+◌, ◌*◌, Bool, true, false, not, ◌&&◌, Option, none, some, List, [], ◌∷◌, ltb, leb, ◌==◌,
  if◌then◌else◌, is_some, get_elem?,
}
use belcoin.Tesseract.{Bytes, Input, Output, Transaction, Crypto}
use belcoin.Config.{timeout_const, timelock_const}
use belcoin.Exec.{Exec, Raised, ok, err, index_error, unbound_local_error, gets, ◌>>=◌}
use belcoin.TxnWrapper.{TxnWrapper}
use belcoin.Index.{Ref, ref_elem}
use belcoin.Dict.{Dict}
use belcoin.State.{Env, Node}
use belcoin.Mempool.{remove_from_mempool, remove_invalid_txn_from_mempool}
use belcoin.Ledger.{amounts, input_refs, del_from_pending}

abbrev pub refs_subset : List Ref → List Ref → Bool
refs_subset [] ys = true
refs_subset (x ∷ xs) ys = ref_elem x ys && refs_subset xs ys

-- The equality of the two sets of inputs.
unfoldable pub same_inputs : Transaction → Transaction → Bool
same_inputs a b =
    refs_subset (input_refs a.inputs) (input_refs b.inputs)
    && refs_subset (input_refs b.inputs) (input_refs a.inputs)

-- The result of `check_pend_replacement`: `(True, False)`, `(False, True)` and `(True, True, tx)`.
pub data Replacement : Type 0 where
  no_match : Replacement
  refused : Replacement
  replaces : Transaction → Replacement

-- `self.current_time * TIME_MULTIPLIER - timestamp > timelock * TIMELOCK_CONST`, free of negative
-- numbers
unfoldable pub timelock_over : ℕ → TxnWrapper → Bool
timelock_over now w = ltb (w.timestamp + w.txn.timelock * timelock_const) now

unfoldable pub check_entries : ℕ → Transaction → Dict TxnWrapper → Replacement
check_entries now txn [] = no_match
check_entries now txn ((_, w) ∷ rest) =
    if same_inputs w.txn txn
    then (if timelock_over now w
        then refused
        else if leb txn.seq w.txn.seq
        then refused
        else replaces w.txn)
    else check_entries now txn rest

-- `self.current_time * TIME_MULTIPLIER - timestamp >= htlc_timeout * TIMEOUT_CONST`
unfoldable pub timeout_reached : ℕ → TxnWrapper → Output → Bool
timeout_reached now w o = leb (w.timestamp + o.htlc_timeout * timeout_const) now

-- What the loop over the inputs has in its local variables: `check` is unset before the first input
-- that is no dummy.
pub record Locals : Type 0 where
  pub has_coins : ℕ
  pub check : Option Replacement

-- How a part of the verification ends: it goes on, it returns False for an invalid transaction, or
-- it raises.
pub data Step (A : Type 0) : Type 0 where
  continue : A → Step A
  invalid : Step A
  raised : Raised → Step A

-- `if check_pend:` in the loop; `check` is the replacement found
unfoldable pub check_unspent : Replacement → Input → TxnWrapper → Step Replacement
check_unspent refused inp w = invalid
check_unspent (replaces tx) inp w = continue (replaces tx)
check_unspent no_match inp w = elim (get_elem? w.utxos inp.index) [
  | none ↦ raised index_error
  | some unspent ↦ if unspent then continue no_match else invalid
]

module _ (C : Crypto) where
  -- The signatures, or the preimage and the one signature before the timeout.
  unfoldable pub authorised : ℕ → Bytes → Input → TxnWrapper → Output → Bool
  authorised now txid inp w o =
      if timeout_reached now w o
      then C.verify_sig txid o.pubkey inp.signature && C.verify_sig txid o.pubkey2 inp.signature2
      else ((C.sha256 inp.htlc_preimage == o.htlc_hashlock)
          && C.verify_sig txid o.htlc_pubkey inp.htlc_signature)

module _ ⦃E : Env⦄ where
  open E use {crypto as C, wrappers as W}

  unfoldable pub check_pend_replacement : Transaction → Node → Replacement
  check_pend_replacement txn s = check_entries s.current_time txn (W.entries s.pend)

  -- One round of the loop over the inputs.
  unfoldable pub verify_input : Bool → Transaction → Node → Input → Locals → Step Locals
  verify_input check_pend txn s inp l =
      if inp.txid == C.no_hash then continue l else elim (W.get s.db inp.txid) [
        | none ↦ invalid
        | some w ↦ elim (get_elem? w.txn.outputs inp.index) [
          | none ↦ invalid
          | some o ↦
              let coins = l.has_coins + o.amount in
              if not (authorised C s.current_time txn.txid inp w o)
              then invalid
              else if check_pend
              then elim (check_unspent (check_pend_replacement txn s) inp w) [
                | continue c ↦ continue (record { has_coins = coins; check = some c })
                | invalid ↦ invalid
                | raised e ↦ raised e
              ]
              else continue (record { has_coins = coins; check = l.check })
        ]
      ]

  unfoldable pub verify_inputs : Bool → Transaction → Node → List Input → Locals → Step Locals
  verify_inputs check_pend txn s [] l = continue l
  verify_inputs check_pend txn s (inp ∷ inps) l = elim (verify_input check_pend txn s inp l) [
    | continue l' ↦ verify_inputs check_pend txn s inps l'
    | invalid ↦ invalid
    | raised e ↦ raised e
  ]

  -- `if check_pend and check[0] and check[1]:` to the end; `check` may be unset
  unfoldable pub finish_check : Option Replacement → Exec (Node) Bool
  finish_check none s = (err unbound_local_error, s)
  finish_check (some (replaces tx)) s = (ok true, del_from_pending tx s)
  finish_check (some no_match) s = (ok true, s)
  finish_check (some refused) s = (ok true, s)

  -- From the end of the loop over the inputs on.
  unfoldable pub conclude : Bool → Transaction → Step Locals → Exec Node Bool
  conclude check_pend txn (raised e) s = (err e, s)
  conclude check_pend txn invalid s = (ok false, remove_invalid_txn_from_mempool txn.txid s)
  conclude check_pend txn (continue l) s =
      if l.has_coins == amounts txn.outputs
      then (if check_pend then finish_check l.check s else (ok true, s))
      else (ok false, remove_invalid_txn_from_mempool txn.txid s)

  -- `if txid in self:`
  unfoldable pub reject_stored : Transaction → Exec Node Bool
  reject_stored txn s = (ok false, remove_from_mempool txn.txid s)

  unfoldable pub verify_txn : Bool → Transaction → Exec Node Bool
  unfolding reject_stored conclude finish_check
  verify_txn check_pend txn = do
    stored ← gets (λ s. W.get s.db txn.txid)
    r ←
        gets
          (λ s. verify_inputs check_pend txn s txn.inputs (record { has_coins = 0; check = none }))
    if is_some stored then reject_stored txn else conclude check_pend txn r
