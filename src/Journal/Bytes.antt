-- ===== src/Journal/Bytes.antt =====
-- Numbers in bytes, and bytes that are written to a file and read.
use belcoin.Prelude.{
  ℕ, zero, suc, ◌+◌, ◌/◌, ◌≤◌, ◌<◌, ◌≡◌, refl, ap, ◌∙◌, true, some, [], ◌∷◌, ◌++◌, length, arith,
}
use mathlib.Core.Path.{subst}
use belcoin.Codec.{Octets}
use belcoin.Journal.{le, fits, number, unpack, put_at, read_at}

number-le : (k n : ℕ) → fits k n ≡ true → number (le k n) ≡ n
number-le zero n h = ground arith
number-le (suc k) n h = omega (arith, number-le k (n / 256) h)

length-le : (k n : ℕ) → length (le k n) ≡ k
length-le zero n = refl
length-le (suc k) n = omega (arith, length-le k (n / 256))

pub unpack-le : (k n : ℕ) → fits k n ≡ true → unpack k (le k n) ≡ some n
unpack-le k n h = ground (arith, length-le k n, number-le k n h)

length-read_at : (f : ℕ → ℕ) (o n : ℕ) → length (read_at f o n) ≡ n
length-read_at f o zero = refl
length-read_at f o (suc n) = omega (arith, length-read_at f (suc o) n)

-- What is read depends on the bytes there only.
pub read_at-same :
    (f g : ℕ → ℕ) (o n : ℕ)
    → ((i : ℕ) → o ≤ i → i < o + n → f i ≡ g i)
    → read_at f o n ≡ read_at g o n
read_at-same f g o zero h = refl
read_at-same f g o (suc n) h = ground (
  arith,
  h o (omega arith) (omega arith),
  read_at-same f g (suc o) n (λ i a b. h i (omega arith) (omega arith)),
)

pub put-before : (f : ℕ → ℕ) (o : ℕ) (vs : Octets) (i : ℕ) → i < o → put_at f o vs i ≡ f i
put-before f o [] i h = refl
put-before f o (v ∷ vs) i h = ground (arith, put-before f (suc o) vs i (omega arith))

pub put-after :
    (f : ℕ → ℕ) (o : ℕ) (vs : Octets) (i : ℕ) → o + length vs ≤ i → put_at f o vs i ≡ f i
put-after f o [] i h = refl
put-after f o (v ∷ vs) i h = ground (arith, put-after f (suc o) vs i (omega arith))

put-first : (f : ℕ → ℕ) (o : ℕ) (v : ℕ) (vs : Octets) → put_at f o (v ∷ vs) o ≡ v
put-first f o v vs = ground arith

pub read-put : (f : ℕ → ℕ) (o : ℕ) (vs : Octets) → read_at (put_at f o vs) o (length vs) ≡ vs
read-put f o [] = refl
read-put f o (v ∷ vs) =
    ap (λ b. b ∷ read_at (put_at f o (v ∷ vs)) (suc o) (length vs)) (put-first f o v vs)
    ∙ ap (λ bs. v ∷ bs)
        (read_at-same (put_at f o (v ∷ vs)) (put_at f (suc o) vs) (suc o) (length vs)
            (λ i a b. ground arith)
          ∙ read-put f (suc o) vs)

-- The bytes `xs` stand at `o`.
abbrev pub Stands : (ℕ → ℕ) → ℕ → Octets → Type 0
Stands f o xs = read_at f o (length xs) ≡ xs

tail_of : Octets → Octets
tail_of [] = []
tail_of (x ∷ xs) = xs

pub Stands-left : (f : ℕ → ℕ) (o : ℕ) (xs ys : Octets) → Stands f o (xs ++ ys) → Stands f o xs
unfolding tail_of
Stands-left f o [] ys h = refl
Stands-left f o (x ∷ xs) ys h = ground (arith, h, Stands-left f (suc o) xs ys (ap tail_of h))

pub Stands-right :
    (f : ℕ → ℕ) (o : ℕ) (xs ys : Octets) → Stands f o (xs ++ ys) → Stands f (o + length xs) ys
unfolding tail_of
Stands-right f o [] ys h = subst (λ k. Stands f k ys) (omega arith) h
Stands-right f o (x ∷ xs) ys h =
    subst (λ k. Stands f k ys) (omega arith) (Stands-right f (suc o) xs ys (ap tail_of h))
