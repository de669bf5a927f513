-- ===== src/Ledger/Spend.antt =====
-- What the loop over the inputs does to the outputs of the ledger.
use belcoin.Prelude.{
  ℕ, ◌<◌, ◌≡◌, refl, ap, ◌∙◌, Bool, false, Option, none, some, List, [], ◌∷◌, arith, ◌==◌,
  if◌then◌else◌, length, get_elem?, set, length-set, get_elem?-set, All, inl, inr, Bool-cases,
}
use belcoin.Tesseract.{Bytes, Input, Output, Transaction}
use belcoin.Exec.{ok, for_each}
use belcoin.TxnWrapper.{TxnWrapper}
use belcoin.Index.{Ref, ref_eq, ref_elem}
use belcoin.State.{Env, Node}
use belcoin.Ledger.{spend_output, spend, input_refs}

module _ ⦃E : Env⦄ where
  open E use {crypto as C, wrappers as W}

  -- Whether the output is unspent; none if it is not in the ledger.
  abbrev pub bit_of : Option TxnWrapper → ℕ → Option Bool
  bit_of none i = none
  bit_of (some w) i = get_elem? w.utxos i

  abbrev pub unspent : Node → Ref → Option Bool
  unspent s r = bit_of (W.get s.db r.0) r.1

  -- A stored transaction with its timestamp.
  abbrev pub txn_at : Node → Bytes → Option (Transaction × ℕ)
  txn_at s k = elim (W.get s.db k) [ none ↦ none | some w ↦ some (w.txn, w.timestamp) ]

  -- The input's output is stored, with its flag.
  abbrev pub IsPresent : Node → Input → Type 0
  IsPresent s inp =
      (w : TxnWrapper) × (o : Output) × (W.get s.db inp.txid ≡ some w)
      × (get_elem? w.txn.outputs inp.index ≡ some o)
      × (inp.index < length w.utxos)

  module _ (inp : Input) (w : TxnWrapper) (o : Output) (s : Node)
      (stored : W.get s.db inp.txid ≡ some w) (listed : get_elem? w.txn.outputs inp.index ≡ some o)
      (inside : inp.index < length w.utxos) where
    pub spend-eq : spend inp s ≡ (ok tt, spend_output inp w o s)
    unfolding spend
    spend-eq = ground (arith, stored, listed)

    pub unspent-spend_output :
        (r : Ref)
        → unspent (spend_output inp w o s) r
          ≡ (if ref_eq (inp.txid, inp.index) r then some false else unspent s r)
    unfolding spend_output
    unspent-spend_output (k, j) = ground (
      arith,
      W.get-put s.db inp.txid k (record w { utxos = set w.utxos inp.index false }),
      get_elem?-set w.utxos inp.index j false inside,
      stored,
    )

    txn_at-spend_output : (k : Bytes) → txn_at (spend_output inp w o s) k ≡ txn_at s k
    unfolding spend_output
    txn_at-spend_output k = ground (
      arith,
      W.get-put s.db inp.txid k (record w { utxos = set w.utxos inp.index false }),
      stored,
    )

    put :
        (x : Input)
        → W.get (W.put s.db inp.txid (record w { utxos = set w.utxos inp.index false })) x.txid ≡ (
            if inp.txid == x.txid
            then some (record w { utxos = set w.utxos inp.index false })
            else W.get s.db x.txid)
    put x = W.get-put s.db inp.txid x.txid (record w { utxos = set w.utxos inp.index false })

    IsPresent-spend_output : (x : Input) → IsPresent s x → IsPresent (spend_output inp w o s) x
    unfolding spend_output
    IsPresent-spend_output x (w1, o1, stored1, listed1, inside1) =
        elim (Bool-cases (inp.txid == x.txid)) [
          | inl same ↦
              let w-eq : w ≡ w1 = ground (arith, stored) in
              (
                record w { utxos = set w.utxos inp.index false },
                o1,
                ground (arith, put x),
                ground (arith, w-eq),
                omega (
                  arith,
                  length-set w.utxos inp.index false,
                  ap (λ (v : TxnWrapper). length v.utxos) w-eq,
                ),
              )
          | inr other ↦ (w1, o1, ground (arith, put x), listed1, inside1)
        ]

  pub All-map :
      {A : Type 0} {P Q : A → Type 0} → ((x : A) → P x → Q x) → (xs : List A) → All P xs → All Q xs
  All-map f [] h = tt
  All-map f (x ∷ xs) (h, hs) = (f x h, All-map f xs hs)

  -- Only these two attributes are written.
  abbrev pub SameRest : Node → Node → Type 0
  SameRest s s' = s' ≡ record s { db = s'.db; pub_outs = s'.pub_outs }

  SameRest-spend_output :
      (inp : Input) (w : TxnWrapper) (o : Output) (s s' : Node)
      → SameRest (spend_output inp w o s) s'
      → SameRest s s'
  unfolding spend_output
  SameRest-spend_output inp w o s s' h = h

  -- Exactly the outputs that the inputs name are spent; the transactions stay, and so does what is
  -- not the database or its index.
  pub record IsSpentBy (inps : List Input) (s s' : Node) : Type 0 where
    pub bits :
        (r : Ref)
        → unspent s' r ≡ (if ref_elem r (input_refs inps) then some false else unspent s r)
    pub rest : SameRest s s'
    pub txns : (k : Bytes) → txn_at s' k ≡ txn_at s k

  -- The loop over inputs whose outputs are all there ends without an exception, and the outputs that
  -- it names, and no others, are spent.
  pub for_each-spend :
      (inps : List Input) (s : Node)
      → All (IsPresent s) inps
      → (s' : Node) × (for_each inps spend s ≡ (ok tt, s')) × IsSpentBy inps s s'
  unfolding for_each
  for_each-spend [] s h = (s, refl, record { bits = λ r. refl; rest = refl; txns = λ k. refl })
  for_each-spend (inp ∷ inps) s ((w, o, stored, listed, inside), hs) =
      let s1 = spend_output inp w o s in
      let (s', e, spent) =
        for_each-spend inps s1
          (All-map (IsPresent-spend_output inp w o s stored listed inside) inps hs) in
      (
        s',
        ground (arith, spend-eq inp w o s stored listed inside, e),
        record {
          bits = λ r.
              ground (arith, spent.bits r, unspent-spend_output inp w o s stored listed inside r);
          rest = SameRest-spend_output inp w o s s' spent.rest;
          txns = λ k. spent.txns k ∙ txn_at-spend_output inp w o s stored listed inside k;
        },
      )
