-- ===== src/Signature/RoundTrip.antt =====
-- When a signature that `sign` makes is verified.
use belcoin.Prelude.{
  append-nil, append-nil, ℕ, zero, ◌≡◌, refl, ap, ◌∙◌, sym, true, false, List, [], ◌∷◌, ◌++◌, arith,
  length,
}
use belcoin.Signature.{Ed25519, same, starts_with, remove_all, replace, sign, verify_sig}

same_refl : (xs : List ℕ) → same xs xs ≡ true
same_refl [] = refl
same_refl (x ∷ xs) = ground (arith, same_refl xs)

starts_with_self : (xs : List ℕ) → starts_with xs xs ≡ true
starts_with_self [] = refl
starts_with_self (x ∷ xs) = ground (arith, starts_with_self xs)

-- No occurrence of the message begins within the first part of the two joined.
abbrev pub IsClear : List ℕ → List ℕ → Type 0
IsClear msg [] = Unit
IsClear msg (x ∷ sig) = (starts_with msg ((x ∷ sig) ++ msg) ≡ false) × IsClear msg sig

remove_all-skip : (n : ℕ) (msg xs : List ℕ) → remove_all n (length xs) msg xs ≡ []
unfolding remove_all
remove_all-skip n msg [] = refl
remove_all-skip n msg (x ∷ xs) = remove_all-skip n msg xs

remove_all-clear :
    (m : ℕ) (msg sig : List ℕ)
    → IsClear (m ∷ msg) sig
    → remove_all (length msg) zero (m ∷ msg) (sig ++ (m ∷ msg)) ≡ sig
unfolding remove_all
remove_all-clear m msg [] h =
    rw (starts_with_self (m ∷ msg), remove_all) (remove_all-skip (length msg) (m ∷ msg) msg)
remove_all-clear m msg (x ∷ sig) (here, h) =
    rw (here, remove_all) (ap (λ ys. x ∷ ys) (remove_all-clear m msg sig h))

replace-clear : (msg sig : List ℕ) → IsClear msg sig → replace msg (sig ++ msg) ≡ sig
unfolding replace
replace-clear [] sig h = append-nil sig
replace-clear (m ∷ msg) sig h = remove_all-clear m msg sig h

module _ (E : Ed25519) where
  sign_lem :
      (msg sk : List ℕ) → IsClear msg (E.signature msg sk) → sign E msg sk ≡ E.signature msg sk
  unfolding sign
  sign_lem msg sk h = ap (replace msg) (E.sign_eq msg sk) ∙ replace-clear msg (E.signature msg sk) h

  -- A signature that `sign` makes is verified under the key that belongs to the signer's, if the
  -- message does not also occur from a position within the signature on: `sign` takes every occurrence
  -- out.
  pub verify_sig-sign :
      (msg sk : List ℕ)
      → IsClear msg (E.signature msg sk)
      → verify_sig E msg (E.public_key sk) (sign E msg sk) ≡ true
  unfolding verify_sig
  verify_sig-sign msg sk h = rw (sign_lem msg sk h) (
      rw (sym (E.sign_eq msg sk), verify_sig) (rw (E.open_sign msg sk, verify_sig) (same_refl msg)))
