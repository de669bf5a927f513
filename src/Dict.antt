-- ===== src/Dict.antt =====
-- A Python dict, or the content of a key-value store, keyed by byte strings.
pub mod Total
use belcoin.Tesseract.{Bytes}
use belcoin.Prelude.{◌≡◌, refl, Option, none, some, List, [], ◌∷◌, arith, ◌==◌, if◌then◌else◌}

abbrev pub Dict {ℓ} : Type ℓ → Type ℓ
Dict V = List (Bytes × V)

module _ {ℓ} {V : Type ℓ} where
  abbrev pub lookup : Bytes → Dict V → Option V
  lookup k [] = none
  lookup k ((j, v) ∷ d) = if j == k then some v else lookup k d

  -- `d[k] = v`
  abbrev pub insert : Bytes → V → Dict V → Dict V
  insert k v [] = (k, v) ∷ []
  insert k v ((j, w) ∷ d) = if j == k then (k, v) ∷ d else (j, w) ∷ insert k v d

  -- Every entry of the key is dropped.
  abbrev pub without : Bytes → Dict V → Dict V
  without k [] = []
  without k ((j, v) ∷ d) = if j == k then without k d else (j, v) ∷ without k d

  -- No key is listed twice.
  abbrev pub Distinct : Dict V → Type ℓ
  Distinct [] = Unit
  Distinct ((k, v) ∷ d) = (lookup k d ≡ none) × Distinct d

  pub lookup-insert :
      (k j : Bytes) (v : V) (d : Dict V)
      → lookup j (insert k v d) ≡ (if k == j then some v else lookup j d)
  lookup-insert k j v [] = refl
  lookup-insert k j v ((i, w) ∷ d) = ground (arith, lookup-insert k j v d)

  pub lookup-without :
      (k j : Bytes) (d : Dict V) → lookup j (without k d) ≡ (if k == j then none else lookup j d)
  lookup-without k j [] = ground arith
  lookup-without k j ((i, w) ∷ d) = ground (arith, lookup-without k j d)

  pub insert-Distinct : (k : Bytes) (v : V) (d : Dict V) → Distinct d → Distinct (insert k v d)
  insert-Distinct k v [] h = (refl, tt)
  insert-Distinct k v ((i, w) ∷ d) h =
      ground (arith, insert-Distinct k v d h.1, lookup-insert k i v d)

  pub without-Distinct : (k : Bytes) (d : Dict V) → Distinct d → Distinct (without k d)
  without-Distinct k [] h = tt
  without-Distinct k ((i, w) ∷ d) h = ground (arith, without-Distinct k d h.1, lookup-without k i d)
