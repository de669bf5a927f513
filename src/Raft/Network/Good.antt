-- ===== src/Raft/Network/Good.antt =====
-- What holds of every node and of the answers in every state of the network.
use belcoin.Prelude.{
  some, ℕ, ◌+◌, ◌*◌, ◌≤◌, ◌<◌, ◌≡◌, ◌≢◌, refl, sym, ◌∙◌, Bool, true, false, ◌||◌, ◌&&◌, ◌==◌, List,
  [], ◌∷◌, arith, In, inl, inr, Bool-cases, All-In,
}
use mathlib.Core.Path.{subst}
use belcoin.Raft.{
  Addr, Setup, Peer, Clock, Packet, response_vote, request_vote, append_entries, append_data,
  append_dump, next_node_idx, command_request, command_logged, command_failed,
}
use belcoin.Raft.Handle.{on_message, init_sync_obj}
use belcoin.Raft.Election.{on_response_vote}
use belcoin.Raft.Sound.{IsSound, IsSound-same, Fits, answer, answers}
use belcoin.Raft.Sound.Answer.{IsSound-more, on_response_vote-IsSound}
use belcoin.Raft.Sound.Command.{apply_command-IsSound}
use belcoin.Raft.Sound.Tick.{on_tick-IsSound}
use belcoin.Raft.Sound.Handle.{on_message-IsSound, on_new_connection-IsSound, init_sync_obj-IsSound}
use belcoin.Raft.Network.{
  others, update, Network, deliver_to, become, Step, tick, arrive, vote_arrives, connect,
  disconnect, command, Reach, start, later,
}
use belcoin.Raft.Network.Tally.{tally-eq, tally, tally_mono, tally-add, length-others}
use belcoin.Raft.Network.Books.{heard_of, inside, rivals_of, IsGood, settle-IsGood}
use belcoin.Raft.Log.Chain.{Fact, Linked}

-- An answer that was sent is one of the answers.
In-answers :
    (c t : ℕ) (sent : List (Addr × Packet))
    → In (c, response_vote t) sent
    → In (c, t) (answers sent)
In-answers c t [] i = elim i [ ]
In-answers c t ((to, p) ∷ sent) (inl e) =
    subst (λ (m : Addr × Packet). In (c, t) (answer m.0 m.1 (answers sent))) (sym e) (inl refl)
In-answers c t ((to, p) ∷ sent) (inr i) = skip p (In-answers c t sent i)
  where
    skip : (p : Packet) → In (c, t) (answers sent) → In (c, t) (answer to p (answers sent))
    skip (response_vote u) j = inr j
    skip (request_vote a b d) j = j
    skip (append_entries a b d e) j = j
    skip (append_data a b d e f) j = j
    skip (append_dump a b d) j = j
    skip (next_node_idx a b d) j = j
    skip (command_request a b) j = j
    skip (command_logged a b d) j = j
    skip (command_failed a b) j = j

update-same : {A : Type 0} (f : ℕ → A) (i : ℕ) (x : A) → update f i x i ≡ x
update-same f i x = ground arith

update-other : {A : Type 0} (f : ℕ → A) (i k : ℕ) (x : A) → k ≢ i → update f i x k ≡ f k
update-other f i k x ne = elim (Bool-cases (i == k)) [
  | inl same ↦ absurd (ne (ground arith))
  | inr other ↦ rw other refl
]

module _ ⦃C : Setup⦄ (n : ℕ) where
  become-IsGood :
      (N : Network C.Serializer) (i : ℕ) (s : Peer)
      → i < n
      → (g : IsGood n N) → IsSound i n (heard_of n g.book N.delivered i) s
      → IsGood n (become n N i s)
  become-IsGood N i s li g h =
      settle-IsGood n (become n N i s) g.book i li
        (subst (IsSound i n (heard_of n g.book N.delivered i)) (sym (update-same N.peers i s)) h)
        (λ k lt ne.
          subst (λ s. (h : IsSound k n (heard_of n g.book N.delivered k) s) × (h.book ≡ g.book))
            (sym (update-other N.peers i k s ne)) (g.sound k lt, g.same k lt))
        g.known g.apart

  -- The answer of `i` to `j` for `term` arrives.
  module _ (d : Addr → Addr → ℕ → Bool) (i j term : ℕ) (li : i < n)
      (fresh : d i j term ≡ false) where
    now : Addr → Addr → ℕ → Bool
    now = deliver_to d i j term

    one_more : (heard_of n [] now j).count term ≡ (heard_of n [] d j).count term + 1
    unfolding now
    one_more =
        tally-eq n (λ v. now v j term) (λ v. (i == v) || d v j term) (λ v. ground arith)
        ∙ (tally-add n i (λ v. d v j term) fresh ∙ omega (arith, inside n i li))

    more : (k t : ℕ) → (heard_of n [] d k).count t ≤ (heard_of n [] now k).count t
    unfolding now
    more k t = tally_mono n (λ v. d v k t) (λ v. now v k t) (λ v e. ground arith)

    gave :
        (k c t : ℕ) (sent : List (Addr × ℕ))
        → (i ≡ k → In (j, term) sent)
        → (d k c t ≡ true → In (c, t) sent)
        → now k c t ≡ true
        → In (c, t) sent
    unfolding now
    gave k c t sent here there g = elim (Bool-cases ((i == k) && ((j == c) && (term == t)))) [
      | inl this ↦ subst (λ (p : Addr × ℕ). In p sent) (ground arith) (here (ground arith))
      | inr other ↦ there (ground arith)
    ]

    now-apart :
        i ≢ j → ((v c t : ℕ) → d v c t ≡ true → v ≢ c) → (v c t : ℕ) → now v c t ≡ true → v ≢ c
    unfolding now
    now-apart ne apart v c t e = elim (Bool-cases (d v c t)) [
      | inl old ↦ apart v c t old
      | inr new ↦ λ same. ne (ground (arith, same))
    ]

  -- With the answer, a node that has gone on to lead in that term knows the votes.
  module _ (N : Network C.Serializer) (i j term : ℕ) (li : i < n) (lj : j < n) (ne : i ≢ j)
      (sent : In (j, response_vote term) (N.peers i).sent) (fresh : N.delivered i j term ≡ false)
      (g : IsGood n N) where
    after_it : Addr → Addr → ℕ → Bool
    after_it = deliver_to N.delivered i j term

    gave_sent : (k c t : ℕ) → k < n → after_it k c t ≡ true → In (c, t) (answers (N.peers k).sent)
    unfolding after_it now
    gave_sent k c t lt =
        gave N.delivered i j term li fresh k c t (answers (N.peers k).sent)
          (λ e.
            subst (λ k. In (j, term) (answers (N.peers k).sent)) e
              (In-answers j term (N.peers i).sent sent))
          ((g.sound k lt).fair.kept c t)

    rivals :
        (k : ℕ) (f : Fact)
        → k < n
        → In f g.book
        → f.author ≢ k
        → n < 2 * (tally n (λ v. after_it v k f.term) + 1)
        → after_it k f.author f.term ≡ true
    unfolding after_it now
    rivals =
        rivals_of n after_it g.book (now-apart N.delivered i j term li fresh ne g.apart)
          (λ v c u t lv p q.
            (g.sound v lv).fair.one c u t (gave_sent v c t lv p) (gave_sent v u t lv q))
          g.known
          (λ f l.
            let h = g.sound f.author (g.known f l) in
            omega (
              arith,
              h.facts.won f (here f l) refl,
              more N.delivered i j term li fresh f.author f.term,
            ))
          (λ f l x p.
            (g.sound f.author (g.known f l)).author.proper f (here f l) refl x
              (gave_sent f.author x f.term (g.known f l) p))
      where
        here : (f : Fact) (l : In f g.book) → In f (g.sound f.author (g.known f l)).book
        here f l = subst (λ b. In f b) (sym (g.same f.author (g.known f l))) l

    answer-IsGood :
        (clock : Clock)
        → IsGood n (record {
          peers = update N.peers j (on_response_vote clock term (N.peers j)).1;
          delivered = deliver_to N.delivered i j term;
        })
    unfolding after_it now
    answer-IsGood clock =
        settle-IsGood n _ g.book j lj
          (subst (IsSound j n (heard_of n g.book after_it j))
            (sym (update-same N.peers j (on_response_vote clock term (N.peers j)).1))
            (on_response_vote-IsSound j n (heard_of n g.book N.delivered j)
              (heard_of n g.book after_it j) (more N.delivered i j term li fresh j) refl
              (λ f. rivals j f lj) clock term (N.peers j) (one_more N.delivered i j term li fresh)
              (λ c t. gave_sent j c t lj) (g.sound j lj)))
          (λ k lt other.
            subst (λ s. (h : IsSound k n (heard_of n g.book after_it k) s) × (h.book ≡ g.book))
              (sym (update-other N.peers j k (on_response_vote clock term (N.peers j)).1 other))
              (let (h, q) =
                  IsSound-more k n (heard_of n g.book N.delivered k) (heard_of n g.book after_it k)
                    (more N.delivered i j term li fresh k) refl (λ f. rivals k f lt) (N.peers k)
                    (λ c t. gave_sent k c t lt) (g.sound k lt) in
                (h, q ∙ g.same k lt)))
          g.known (now-apart N.delivered i j term li fresh ne g.apart)

  Step-IsGood : {N M : Network C.Serializer} → Step n N M → IsGood n N → IsGood n M
  unfolding on_message
  Step-IsGood {N} (tick i clock lt) g =
      become-IsGood N i _ lt g
        ((on_tick-IsSound i n (heard_of n g.book N.delivered i) clock).at _ (g.sound i lt))
  Step-IsGood {N} (arrive i j clock p li lj plain sent) g = become-IsGood N j _ lj g (
      on_message-IsSound j n (heard_of n g.book N.delivered j) clock i p (N.peers j) plain
        (All-In (λ (m : Addr × Packet). Fits m.1) (j, p) (N.peers i).sent (g.sound i li).posted
          sent)
        (subst (λ b. Linked b p) (g.same i li)
          (All-In (λ (m : Addr × Packet). Linked (g.sound i li).book m.1) (j, p) (N.peers i).sent
            (g.sound i li).linked sent))
        (g.sound j lj))
  Step-IsGood {N} (vote_arrives i j clock term li lj ne sent fresh) g =
      answer-IsGood N i j term li lj ne sent fresh g clock
  Step-IsGood {N} (connect i addr lt) g = become-IsGood N i _ lt g (
      on_new_connection-IsSound i n (heard_of n g.book N.delivered i) addr (N.peers i)
        (g.sound i lt))
  Step-IsGood {N} (disconnect i left lt) g = become-IsGood N i _ lt g (
      IsSound-same i n (heard_of n g.book N.delivered i) (N.peers i) _ (g.sound i lt) refl refl refl
        refl refl)
  Step-IsGood {N} (command i bytes callback lt usual) g = become-IsGood N i _ lt g (
      apply_command-IsSound i n (heard_of n g.book N.delivered i) bytes callback (N.peers i) usual
        (g.sound i lt))

  pub Reach-IsGood : {N : Network C.Serializer} → Reach n N → IsGood n N
  Reach-IsGood (start clock ver ser) = record {
    book = [];
    sound = λ i lt. (begin i lt).0;
    same = λ i lt. (begin i lt).1;
    known = λ f i. elim i [ ];
    apart = λ v c t e. cc;
  }
    where
      begin :
          (i : ℕ)
          → i < n
          → (h : IsSound i n
              (heard_of n [] (λ v c t. false) i)
              (init_sync_obj (clock i) (some i) (others n i) (ver i) (ser i)))
            × (h.book ≡ [])
      begin i lt =
          init_sync_obj-IsSound i n _ (clock i) (others n i) (ver i) (ser i)
            (ground (arith, length-others n i)) (λ c t. refl) refl
  Reach-IsGood (later r st) = Step-IsGood st (Reach-IsGood r)
