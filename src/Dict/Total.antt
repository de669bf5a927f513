-- ===== src/Dict/Total.antt =====
-- Sums over the entries of a dict whose keys are distinct: only what `lookup` returns matters.
use belcoin.Tesseract.{Bytes}
use belcoin.Dict.{Dict, lookup, insert, without, Distinct, lookup-without, without-Distinct}
use belcoin.Prelude.{ℕ, ◌+◌, ◌≡◌, refl, none, some, [], ◌∷◌, arith}

module _ {ℓ} {V : Type ℓ} (f : V → ℕ) where
  abbrev pub total : Dict V → ℕ
  total [] = 0
  total ((k, v) ∷ d) = f v + total d

  pub total-insert :
      (k : Bytes) (v w : V) (d : Dict V)
      → lookup k d ≡ some w
      → total (insert k v d) + f w ≡ total d + f v
  total-insert k v w [] e = cc
  total-insert k v w ((j, u) ∷ d) e = ground (arith, total-insert k v w d)

  pub total-insert_new :
      (k : Bytes) (v : V) (d : Dict V) → lookup k d ≡ none → total (insert k v d) ≡ total d + f v
  total-insert_new k v [] e = omega arith
  total-insert_new k v ((j, u) ∷ d) e = ground (arith, total-insert_new k v d)

  total-without_absent :
      (k : Bytes) (d : Dict V) → lookup k d ≡ none → total (without k d) ≡ total d
  total-without_absent k [] e = refl
  total-without_absent k ((j, u) ∷ d) e = ground (arith, total-without_absent k d)

  pub total-without :
      (k : Bytes) (v : V) (d : Dict V)
      → Distinct d
      → lookup k d ≡ some v
      → total d ≡ f v + total (without k d)
  total-without k v [] h e = cc
  total-without k v ((j, u) ∷ d) h e =
      ground (arith, total-without k v d h.1, total-without_absent j d h.0)

  -- Two such dicts with the same lookups have the same sum.
  pub total-same :
      (d d' : Dict V)
      → Distinct d
      → Distinct d'
      → ((j : Bytes) → lookup j d ≡ lookup j d')
      → total d ≡ total d'
  total-same [] [] h h' e = refl
  total-same [] ((k, v) ∷ d') h h' e = absurd (ground (arith, e k))
  total-same ((k, v) ∷ d) d' h h' e =
      let there : lookup k d' ≡ some v = ground (arith, e k) in
      let rest : total d ≡ total (without k d') =
        total-same d (without k d') h.1 (without-Distinct k d' h')
          (λ j. ground (arith, e j, lookup-without k j d', h.0)) in
      ground (arith, rest, total-without k v d' h' there)
