-- ===== src/Raft/Network/Matching.antt =====
-- What the logs of two nodes have in common in every state of the network.
use belcoin.Prelude.{
  ℕ, zero, suc, ◌+◌, ◌-◌, ◌<◌, ◌≡◌, refl, sym, ap, ◌∙◌, true, false, some, List, [], ◌∷◌, ◌++◌,
  arith, ltb, take, In, Bool-cases, inl, inr,
}
use mathlib.Core.Path.{subst}
use belcoin.Raft.{Entry, Setup}
use belcoin.Raft.Log.{drop, get_entries}
use belcoin.Raft.Log.Laws.{Run, IsLog, Run-drop, up_to}
use belcoin.Raft.Log.Chain.{Fact, Recorded, ChainFrom, Chain, after_drop}
use belcoin.Raft.Network.{Network, Reach}
use belcoin.Raft.Network.Good.{Reach-IsGood}

entry_before :
    (k : ℕ) (es : List Entry) (x : Entry) (xs : List Entry)
    → drop (suc k) es ≡ x ∷ xs
    → (w : Entry) × (drop k es ≡ w ∷ x ∷ xs)
entry_before k [] x xs q = cc
entry_before zero (e ∷ es) x xs q = (e, ap (λ l. e ∷ l) q)
entry_before (suc k) (e ∷ es) x xs q = entry_before k es x xs q

take-next :
    (k : ℕ) (es : List Entry) (x : Entry) (xs : List Entry)
    → drop k es ≡ x ∷ xs
    → take (suc k) es ≡ take k es ++ (x ∷ [])
take-next zero [] x xs q = cc
take-next zero (e ∷ es) x xs q = ground (arith, q)
take-next (suc k) [] x xs q = cc
take-next (suc k) (e ∷ es) x xs q = ap (λ l. e ∷ l) (take-next k es x xs q)

idx_at :
    (k i : ℕ) (es : List Entry) (x : Entry) (xs : List Entry)
    → Run i es
    → drop k es ≡ x ∷ xs
    → x.idx ≡ i + k
idx_at k i es x xs h q = (subst (Run (i + k)) q (Run-drop k i es h)).0

Recorded-at :
    (book : List Fact) (k : ℕ) (e : Entry) (es : List Entry) (w x : Entry) (xs : List Entry)
    → ChainFrom book e.term es
    → drop k (e ∷ es) ≡ w ∷ x ∷ xs
    → Recorded book w.term x
Recorded-at book k e es w x xs c q = (after_drop book k e es w (x ∷ xs) q c).0

abbrev entry_of : Fact → Entry
entry_of f = record { command = f.command; idx = f.idx; term = f.term }

-- Two logs that are in one book
module _ (book : List Fact)
    (single : (f g : Fact) → In f book → In g book → f.idx ≡ g.idx → f.term ≡ g.term → f ≡ g)
    (i : ℕ) (e : Entry) (es es' : List Entry) (c : ChainFrom book e.term es)
    (c' : ChainFrom book e.term es') (run : Run i (e ∷ es)) (run' : Run i (e ∷ es')) where
  agree_before :
      (k : ℕ) (x : Entry) (xs : List Entry) (y : Entry) (ys : List Entry)
      → drop k (e ∷ es) ≡ x ∷ xs
      → drop k (e ∷ es') ≡ y ∷ ys
      → x.term ≡ y.term
      → (x ≡ y) × (take k (e ∷ es) ≡ take k (e ∷ es'))
  agree_before zero x xs y ys q r t = (ground (arith, q, r), refl)
  agree_before (suc k) x xs y ys q r t =
      let (v, p) = entry_before k (e ∷ es) x xs q in
      let (w, o) = entry_before k (e ∷ es') y ys r in
      let (a, f) = Recorded-at book k e es v x xs c p in
      let (b, g) = Recorded-at book k e es' w y ys c' o in
      let same =
        single _ _ f g
          (idx_at (suc k) i (e ∷ es) x xs run q ∙ sym (idx_at (suc k) i (e ∷ es') y ys run' r)) t in
      let (vw, before) =
        agree_before k v (x ∷ xs) w (y ∷ ys) p o (ap (λ (f : Fact). f.prev) same) in
      (
        ap entry_of same,
        take-next k (e ∷ es) v (x ∷ xs) p
            ∙ (ap (λ l. l ++ (v ∷ [])) before
                ∙ (ap (λ u. take k (e ∷ es') ++ (u ∷ [])) vw
                    ∙ sym (take-next k (e ∷ es') w (y ∷ ys) o))),
      )

  agree :
      (k : ℕ) (x : Entry) (xs : List Entry) (y : Entry) (ys : List Entry)
      → drop k (e ∷ es) ≡ x ∷ xs
      → drop k (e ∷ es') ≡ y ∷ ys
      → x.term ≡ y.term
      → take (suc k) (e ∷ es) ≡ take (suc k) (e ∷ es')
  agree k x xs y ys q r t =
      let (xy, before) = agree_before k x xs y ys q r t in
      take-next k (e ∷ es) x xs q
      ∙ (ap (λ l. l ++ (x ∷ [])) before
          ∙ (ap (λ u. take k (e ∷ es') ++ (u ∷ [])) xy ∙ sym (take-next k (e ∷ es') y ys r)))

drop_of :
    (place : ℕ) (e : Entry) (es : List Entry) (x : Entry) (xs : List Entry)
    → get_entries (some place) (e ∷ es) ≡ x ∷ xs
    → (ltb place e.idx ≡ false) × (drop (place - e.idx) (e ∷ es) ≡ x ∷ xs)
unfolding get_entries
drop_of place e es x xs q = elim (Bool-cases (ltb place e.idx)) [
  | inl early ↦ absurd (nothing early)
  | inr there ↦ (there, got there)
]
  where
    nothing : ltb place e.idx ≡ true → ⊥
    nothing early = cc (rw early at q)

    got : ltb place e.idx ≡ false → drop (place - e.idx) (e ∷ es) ≡ x ∷ xs
    got there = rw there at q

matching :
    (book : List Fact)
    → ((f g : Fact) → In f book → In g book → f.idx ≡ g.idx → f.term ≡ g.term → f ≡ g)
    → (place : ℕ) (log log' : List Entry) (x y : Entry) (xs ys : List Entry) → IsLog log
    → IsLog log'
    → Chain book log
    → Chain book log'
    → get_entries (some place) log ≡ x ∷ xs
    → get_entries (some place) log' ≡ y ∷ ys
    → x.term ≡ y.term
    → up_to place log ≡ up_to place log'
matching book single place [] log' x y xs ys h h' c c' q r t = elim h [ ]
matching book single place (e ∷ es) [] x y xs ys h h' c c' q r t = elim h' [ ]
matching book single place (e ∷ es) (e' ∷ es') x y xs ys h h' (p, c) (p', c') q r t =
    same_first e' (p ∙ sym p') es' h' c' r
  where
    same_first :
        (e' : Entry)
        → e ≡ e'
        → (es' : List Entry) → IsLog (e' ∷ es')
        → ChainFrom book e'.term es'
        → get_entries (some place) (e' ∷ es') ≡ y ∷ ys
        → up_to place (e ∷ es) ≡ up_to place (e' ∷ es')
    same_first e' o =
        subst
          (λ e'.
            (es' : List Entry)
            → IsLog (e' ∷ es')
            → ChainFrom book e'.term es'
            → get_entries (some place) (e' ∷ es') ≡ y ∷ ys
            → up_to place (e ∷ es) ≡ up_to place (e' ∷ es'))
          o
          (λ es' h' c' r.
            let (there, q) = drop_of place e es x xs q in
            let (_, r) = drop_of place e es' y ys r in
            let n : place + 1 - e.idx ≡ suc (place - e.idx) = ground (arith, there) in
            rw n (agree book single e.idx e es es' c c' h h' (place - e.idx) x xs y ys q r t))

module _ ⦃C : Setup⦄ (n : ℕ) where
  -- In every state of the network, two logs that have entries of the same term at one place are the
  -- same up to that place: `get_entries` finds the entries `x` and `y` there.
  pub logs_match :
      {N : Network C.Serializer} (i j place : ℕ) (x y : Entry) (xs ys : List Entry)
      → Reach n N
      → i < n
      → j < n
      → get_entries (some place) (N.peers i).raft_log ≡ x ∷ xs
      → get_entries (some place) (N.peers j).raft_log ≡ y ∷ ys
      → x.term ≡ y.term
      → up_to place (N.peers i).raft_log ≡ up_to place (N.peers j).raft_log
  logs_match {N} i j place x y xs ys r li lj q p t =
      let g = Reach-IsGood n r in
      let h = g.sound i li in
      let k = g.sound j lj in
      matching h.book h.facts.single place (N.peers i).raft_log (N.peers j).raft_log x y xs ys h.log
        k.log h.chained
        (subst (λ book. Chain book (N.peers j).raft_log) (g.same j lj ∙ sym (g.same i li))
          k.chained)
        q p t
