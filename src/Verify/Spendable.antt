-- ===== src/Verify/Spendable.antt =====
-- When the loop of `verify_txn` over the inputs goes on, described apart from the order of its tests.
-- (belcoin_node/storage.py)
use belcoin.Prelude.{
  ℕ, ◌+◌, ◌*◌, ◌≤◌, ◌<◌, ◌≡◌, ◌≢◌, refl, ap, ◌↔◌, ◌⊎◌, inl, inr, Bool, true, false, not, ◌&&◌, ◌||◌,
  none, some, List, [], ◌∷◌, arith, ◌==◌, if◌then◌else◌, get_elem?, All, Bool-cases, Option-cases,
}
use belcoin.Tesseract.{Bytes, Input, Output, Transaction}
use belcoin.Config.{timeout_const}
use belcoin.Exec.{Raised}
use belcoin.TxnWrapper.{TxnWrapper}
use belcoin.State.{Env, Node}
use belcoin.Verify.{
  no_match, replaces, Locals, Step, continue, invalid, raised, timeout_reached, authorised,
  check_pend_replacement, check_unspent, verify_input, verify_inputs,
}

module _ ⦃E : Env⦄ where
  open E use {crypto as C, wrappers as W}

  -- The input is signed by both keys and its timeout has come, or it has not come and the input gives
  -- the preimage and the third key's signature.
  abbrev pub Unlocks : ℕ → Bytes → Input → TxnWrapper → Output → Type 0
  Unlocks now txid inp w o =
      ((w.timestamp + o.htlc_timeout * timeout_const ≤ now)
        × (C.verify_sig txid o.pubkey inp.signature ≡ true)
        × (C.verify_sig txid o.pubkey2 inp.signature2 ≡ true))
      ⊎ ((now < w.timestamp + o.htlc_timeout * timeout_const)
          × (C.sha256 inp.htlc_preimage ≡ o.htlc_hashlock)
          × (C.verify_sig txid o.htlc_pubkey inp.htlc_signature ≡ true))

  -- The output is unspent, or the transaction replaces a pending one with the same inputs. A pending
  -- transaction that is released is not asked.
  abbrev pub Available : Bool → Transaction → Node → Input → TxnWrapper → Type 0
  Available false txn s inp w = Unit
  Available true txn s inp w =
      ((check_pend_replacement txn s ≡ no_match) × (get_elem? w.utxos inp.index ≡ some true))
      ⊎ ((tx : Transaction) × (check_pend_replacement txn s ≡ replaces tx))

  -- A dummy, or an input whose output is stored, unlocked and available.
  abbrev pub IsSpendable : Bool → Transaction → Node → Input → Type 0
  IsSpendable b txn s inp =
      (inp.txid ≡ C.no_hash)
      ⊎ ((inp.txid ≢ C.no_hash)
          × ((w : TxnWrapper) × (o : Output) × (W.get s.db inp.txid ≡ some w)
              × (get_elem? w.txn.outputs inp.index ≡ some o)
              × Unlocks s.current_time txn.txid inp w o
              × Available b txn s inp w))

  -- What an input brings in.
  abbrev pub coins_of : Node → Input → ℕ
  coins_of s inp = if inp.txid == C.no_hash then 0 else elim (W.get s.db inp.txid) [
    | none ↦ 0
    | some w ↦ elim (get_elem? w.txn.outputs inp.index) [ none ↦ 0 | some o ↦ o.amount ]
  ]

  abbrev pub coins : Node → List Input → ℕ
  coins s [] = 0
  coins s (inp ∷ inps) = coins_of s inp + coins s inps

  -- Whether some input is no dummy.
  abbrev pub has_real : List Input → Bool
  has_real [] = false
  has_real (inp ∷ inps) = not (inp.txid == C.no_hash) || has_real inps

  pub Step-cases :
      (r : Step Locals)
      → ((l : Locals) × (r ≡ continue l)) ⊎ ((r ≡ invalid) ⊎ ((e : Raised) × (r ≡ raised e)))
  Step-cases (continue l) = inl (l, refl)
  Step-cases invalid = inr (inl refl)
  Step-cases (raised e) = inr (inr (e, refl))

  authorised_iff :
      (now : ℕ) (txid : Bytes) (inp : Input) (w : TxnWrapper) (o : Output)
      → (authorised C now txid inp w o ≡ true) ↔ Unlocks now txid inp w o
  unfolding authorised timeout_reached
  authorised_iff now txid inp w o = ground arith

  -- The local variables after one round that goes on.
  abbrev pub after : Bool → Transaction → Node → Input → Locals → Locals
  after b txn s inp l = record {
    has_coins = l.has_coins + coins_of s inp;
    check =
        if not (inp.txid == C.no_hash) && b then some (check_pend_replacement txn s) else l.check;
  }

  -- The two directions for an input whose output is there.
  module _ (txn : Transaction) (s : Node) (inp : Input) (w : TxnWrapper) (o : Output) (l : Locals)
      (real : (inp.txid == C.no_hash) ≡ false) (stored : W.get s.db inp.txid ≡ some w)
      (listed : get_elem? w.txn.outputs inp.index ≡ some o) where
    verify_found :
        (b : Bool) (l' : Locals)
        → verify_input b txn s inp l ≡ continue l'
        → Unlocks s.current_time txn.txid inp w o
          × Available b txn s inp w
          × (l' ≡ after b txn s inp l)
    unfolding verify_input check_unspent
    verify_found false l' h =
        ground (arith, authorised_iff s.current_time txn.txid inp w o, real, stored, listed)
    verify_found true l' h =
        ground (arith, authorised_iff s.current_time txn.txid inp w o, real, stored, listed)

    found_verify :
        (b : Bool)
        → Unlocks s.current_time txn.txid inp w o
        → Available b txn s inp w
        → verify_input b txn s inp l ≡ continue (after b txn s inp l)
    unfolding verify_input check_unspent
    found_verify false u a =
        ground (arith, authorised_iff s.current_time txn.txid inp w o, real, stored, listed)
    found_verify true u a =
        ground (arith, authorised_iff s.current_time txn.txid inp w o, real, stored, listed)

  verify_input_sound :
      (b : Bool) (txn : Transaction) (s : Node) (inp : Input) (l l' : Locals)
      → verify_input b txn s inp l ≡ continue l'
      → IsSpendable b txn s inp × (l' ≡ after b txn s inp l)
  unfolding verify_input
  verify_input_sound b txn s inp l l' h = elim (Bool-cases (inp.txid == C.no_hash)) [
    | inl dummy ↦ (inl (ground arith), ground (arith, dummy))
    | inr real ↦ elim (Option-cases (W.get s.db inp.txid)) [
      | inl absent ↦ absurd (ground (arith, real, absent))
      | inr (w, stored) ↦ elim (Option-cases (get_elem? w.txn.outputs inp.index)) [
        | inl outside ↦ absurd (ground (arith, real, stored, outside))
        | inr (o, listed) ↦
            let r = verify_found txn s inp w o l real stored listed b l' h in
            (inr (ground arith, (w, o, stored, listed, r.0, r.1)), r.2)
      ]
    ]
  ]

  verify_input_complete :
      (b : Bool) (txn : Transaction) (s : Node) (inp : Input) (l : Locals)
      → IsSpendable b txn s inp
      → verify_input b txn s inp l ≡ continue (after b txn s inp l)
  unfolding verify_input
  verify_input_complete b txn s inp l (inl dummy) = ground arith
  verify_input_complete b txn s inp l (inr (real, (w, o, stored, listed, u, a))) =
      found_verify txn s inp w o l (ground arith) stored listed b u a

  -- The local variables after the loop.
  abbrev pub after_all : Bool → Transaction → Node → List Input → Locals → Locals
  after_all b txn s inps l = record {
    has_coins = l.has_coins + coins s inps;
    check = if has_real inps && b then some (check_pend_replacement txn s) else l.check;
  }

  after-after_all :
      (b : Bool) (txn : Transaction) (s : Node) (inp : Input) (inps : List Input) (l : Locals)
      → after_all b txn s inps (after b txn s inp l) ≡ after_all b txn s (inp ∷ inps) l
  after-after_all b txn s inp inps l = ground arith

  pub verify_inputs_sound :
      (b : Bool) (txn : Transaction) (s : Node) (inps : List Input) (l l' : Locals)
      → verify_inputs b txn s inps l ≡ continue l'
      → All (IsSpendable b txn s) inps × (l' ≡ after_all b txn s inps l)
  unfolding verify_inputs
  verify_inputs_sound b txn s [] l l' h = (tt, ground arith)
  verify_inputs_sound b txn s (inp ∷ inps) l l' h = elim (Step-cases (verify_input b txn s inp l)) [
    | inl (l1, e) ↦
        let (here, e1) = verify_input_sound b txn s inp l l1 e in
        let (rest, e2) = verify_inputs_sound b txn s inps l1 l' (ground (arith, e)) in
        ((here, rest), cc (after-after_all b txn s inp inps l, ap (after_all b txn s inps) e1))
    | inr (inl stops) ↦ absurd (ground (arith, stops))
    | inr (inr (x, raises)) ↦ absurd (ground (arith, raises))
  ]

  pub verify_inputs_complete :
      (b : Bool) (txn : Transaction) (s : Node) (inps : List Input) (l : Locals)
      → All (IsSpendable b txn s) inps
      → verify_inputs b txn s inps l ≡ continue (after_all b txn s inps l)
  unfolding verify_inputs
  verify_inputs_complete b txn s [] l h = ground arith
  verify_inputs_complete b txn s (inp ∷ inps) l (h, hs) = ground (
    arith,
    verify_input_complete b txn s inp l h,
    verify_inputs_complete b txn s inps (after b txn s inp l) hs,
    after-after_all b txn s inp inps l,
  )
