-- ===== src/Fetch/Sound.antt =====
-- Taking blocks and fetching transactions keeps a sound state. A reply is trusted to hold the
-- transaction that was asked for: the code does not compare its hash.
use belcoin.Prelude.{ℕ, ◌≡◌, refl, Option, none, some, List, [], ◌∷◌, inl, inr, Option-cases}
use belcoin.Tesseract.{Bytes, Transaction}
use belcoin.Exec.{Exec, pure}
use belcoin.Exec.Keeps.{Keeps, Keeps-raise, Keeps-modify, Keeps-bind, Keeps-pure, keeps_rules}
use belcoin.State.{Env, Node, Block}
use belcoin.Mempool.Sound.{IsSound, add_to_mempool-IsSound}
use belcoin.Block.Sound.{IsSound-same, process_block-IsSound}
use belcoin.Fetch.{
  Reply, not_found, was_invalid, found, push_call, call_later, forget_missing, resume_or,
  request_missing_transaction, request_missing_transactions, set_missing, find_missing_transactions,
  take_block, set_missed, stop_processing, fetch_now, back_off, start_block, try_process,
  add_received, add_reply, transaction_received, transaction_receive_error, on_reply,
}

-- The reply to a request for `txid` holds that transaction, if it holds one.
abbrev pub Answers : Reply → Bytes → Type 0
Answers not_found txid = Unit
Answers was_invalid txid = Unit
Answers (found tx) txid = tx.txid ≡ txid

module _ ⦃E : Env⦄ where
  open E use {transactions as T}

  module _ (s : Node) (h : IsSound s) where
    push_call-IsSound : (txid : Bytes) (i : ℕ) → IsSound (push_call txid i s)
    unfolding push_call
    push_call-IsSound txid i = IsSound-same s _ h refl refl refl refl refl

    forget_missing-IsSound : (txid : Bytes) → IsSound (forget_missing txid s)
    unfolding forget_missing
    forget_missing-IsSound txid = IsSound-same s _ h refl refl refl refl refl

    set_missing-IsSound : (block : List Bytes) → IsSound (set_missing block s)
    unfolding set_missing
    set_missing-IsSound block = IsSound-same s _ h refl refl refl refl refl

    take_block-IsSound : (block : Block) → IsSound (take_block block s)
    unfolding take_block
    take_block-IsSound block = IsSound-same s _ h refl refl refl refl refl

    set_missed-IsSound : (n : ℕ) → IsSound (set_missed n s)
    unfolding set_missed
    set_missed-IsSound n = IsSound-same s _ h refl refl refl refl refl

    stop_processing-IsSound : IsSound (stop_processing s)
    unfolding stop_processing
    stop_processing-IsSound = IsSound-same s _ h refl refl refl refl refl

  ruleset fetch_rules = (
    keeps_rules, Keeps-raise, process_block-IsSound, push_call-IsSound, forget_missing-IsSound,
    set_missing-IsSound, take_block-IsSound, set_missed-IsSound, stop_processing-IsSound,
  )

  call_later-IsSound : (txid : Bytes) (i : ℕ) → Keeps IsSound (call_later txid i)
  unfolding call_later
  call_later-IsSound txid i = Keeps-modify _ (λ s h. push_call-IsSound s h txid i)

  resume_or-IsSound :
      (other : Exec Node (Unit {0})) (txid : Bytes)
      → Keeps IsSound other
      → Keeps IsSound (resume_or other txid)
  unfolding resume_or
  resume_or-IsSound other txid k = search fetch_rules depth 9

  request-IsSound : (txid : Bytes) (i : ℕ) → Keeps IsSound (request_missing_transaction txid i)
  unfolding request_missing_transaction
  request-IsSound txid i = search (fetch_rules, call_later-IsSound, resume_or-IsSound) depth 7

  request_all-IsSound : Keeps IsSound request_missing_transactions
  unfolding request_missing_transactions
  request_all-IsSound = search (fetch_rules, request-IsSound) depth 7

  find_missing-IsSound : (block : List Bytes) → Keeps IsSound (find_missing_transactions block)
  unfolding find_missing_transactions
  find_missing-IsSound block = search (fetch_rules, request_all-IsSound) depth 8

  fetch_now-IsSound : (block : List Bytes) → Keeps IsSound (fetch_now block)
  unfolding fetch_now
  fetch_now-IsSound block = search (fetch_rules, find_missing-IsSound) depth 9

  back_off-IsSound : (block : List Bytes) → Keeps IsSound (back_off block)
  unfolding back_off
  back_off-IsSound block = search (fetch_rules, fetch_now-IsSound) depth 9

  start_block-IsSound : (queue : List Block) → Keeps IsSound (start_block queue)
  unfolding start_block
  start_block-IsSound [] = search fetch_rules
  start_block-IsSound (block ∷ queue) = search (fetch_rules, back_off-IsSound) depth 9

  pub try_process-IsSound : Keeps IsSound try_process
  unfolding try_process
  try_process-IsSound = search (fetch_rules, start_block-IsSound) depth 8

  add_reply-IsSound :
      (tx : Option Transaction) (txid : Bytes)
      → ((t : Transaction) → tx ≡ some t → t.txid ≡ txid)
      → Keeps IsSound (add_reply tx txid)
  unfolding add_reply add_received
  add_reply-IsSound none txid a = search (keeps_rules, Keeps-raise) depth 7
  add_reply-IsSound (some t) txid a = record {
    at = λ s h. elim (Option-cases (T.get s.mempool txid)) [
      | inl new ↦ rw new (add_to_mempool-IsSound t s h (rw (a t refl) new))
      | inr (u, old) ↦ rw old h
    ];
  }

  received-IsSound :
      (reply : Reply) (i : ℕ) (txid : Bytes)
      → Answers reply txid
      → Keeps IsSound (transaction_received reply i txid)
  unfolding transaction_received
  received-IsSound not_found i txid a = request-IsSound txid i
  received-IsSound was_invalid i txid a =
      Keeps-bind _ (λ _. resume_or (pure tt) txid)
        (add_reply-IsSound none txid (λ t e. absurd (cc)))
        (λ _. resume_or-IsSound (pure tt) txid (Keeps-pure tt))
  received-IsSound (found tx) i txid a =
      Keeps-bind _ (λ _. resume_or (pure tt) txid)
        (add_reply-IsSound (some tx) txid (λ t e. cc (a, e)))
        (λ _. resume_or-IsSound (pure tt) txid (Keeps-pure tt))

  pub on_reply-IsSound :
      (reply : Reply) (i : ℕ) (txid : Bytes)
      → Answers reply txid
      → Keeps IsSound (on_reply reply i txid)
  unfolding on_reply transaction_receive_error
  on_reply-IsSound reply i txid a = search (keeps_rules, received-IsSound, request-IsSound)
