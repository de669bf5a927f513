-- ===== src/Signature.antt =====
-- Signatures (belcoin_node/crypto/crypto.py) over package `ed25519ll`, whose functions are parameters.
pub mod RoundTrip
use belcoin.Prelude.{
  ℕ, zero, suc, ◌-◌, ◌≡◌, Bool, true, false, ◌&&◌, Option, none, some, List, [], ◌∷◌, ◌++◌, ◌==◌,
  length, if◌then◌else◌,
}

-- `crypto_sign(msg, sk)` and `crypto_sign_open(signed, pk)`, which returns the message, or raises a
-- ValueError (here `none`) if the signature does not fit. The documented behaviour: a signed message is
-- the signature and then the message, and it opens under the key that belongs to `sk`.
pub record Ed25519 : Type 0 where
  pub crypto_sign : List ℕ → List ℕ → List ℕ
  pub crypto_sign_open : List ℕ → List ℕ → Option (List ℕ)
  pub public_key : List ℕ → List ℕ
  pub signature : List ℕ → List ℕ → List ℕ
  pub sign_eq : (msg sk : List ℕ) → crypto_sign msg sk ≡ signature msg sk ++ msg
  pub open_sign :
      (msg sk : List ℕ) → crypto_sign_open (crypto_sign msg sk) (public_key sk) ≡ some msg

-- `xs == ys`
abbrev pub same : List ℕ → List ℕ → Bool
same [] [] = true
same [] (y ∷ ys) = false
same (x ∷ xs) [] = false
same (x ∷ xs) (y ∷ ys) = (x == y) && same xs ys

-- `xs.startswith(msg)`
abbrev pub starts_with : List ℕ → List ℕ → Bool
starts_with [] xs = true
starts_with (m ∷ msg) [] = false
starts_with (m ∷ msg) (x ∷ xs) = (m == x) && starts_with msg xs

-- `xs.replace(msg, b'')` for a message with `suc n` bytes: each occurrence from the left is left out;
-- `skip` bytes of the last one are still to come.
unfoldable pub remove_all : ℕ → ℕ → List ℕ → List ℕ → List ℕ
remove_all n skip msg [] = []
remove_all n (suc skip) msg (x ∷ xs) = remove_all n skip msg xs
remove_all n zero msg (x ∷ xs) = elim (starts_with msg (x ∷ xs)) [
  | true ↦ remove_all n n msg xs
  | false ↦ x ∷ remove_all n zero msg xs
]

-- `xs.replace(msg, b'')`: an empty message changes nothing.
unfoldable pub replace : List ℕ → List ℕ → List ℕ
replace [] xs = xs
replace (m ∷ msg) xs = remove_all (length msg) zero (m ∷ msg) xs

module _ (E : Ed25519) where
  unfoldable pub sign : List ℕ → List ℕ → List ℕ
  sign msg priv_key = replace msg (E.crypto_sign msg priv_key)

  unfoldable pub verify_sig : List ℕ → List ℕ → List ℕ → Bool
  verify_sig msg pub_key sig = elim (E.crypto_sign_open (sig ++ msg) pub_key) [
    | none ↦ false
    | some verified ↦ same verified msg
  ]
