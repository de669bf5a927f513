-- ===== src/Raft/Network/Tally.antt =====
-- How many numbers below a bound pass a test.
use belcoin.Prelude.{
  ltb, ℕ, zero, suc, ◌+◌, ◌≤◌, ◌<◌, ◌≡◌, refl, Bool, true, false, ◌||◌, ◌==◌, if◌then◌else◌, arith,
  length,
}
use belcoin.Raft.Network.{others}

abbrev pub bit : Bool → ℕ
bit true = 1
bit false = 0

pub tally : ℕ → (ℕ → Bool) → ℕ
tally zero f = 0
tally (suc n) f = bit (f n) + tally n f

pub tally-none : (n : ℕ) → tally n (λ v. false) ≡ 0
unfolding tally
tally-none zero = refl
tally-none (suc n) = omega (arith, tally-none n)

pub tally_mono :
    (n : ℕ) (f g : ℕ → Bool) → ((v : ℕ) → f v ≡ true → g v ≡ true) → tally n f ≤ tally n g
unfolding tally
tally_mono zero f g h = omega arith
tally_mono (suc n) f g h = ground (arith, tally_mono n f g h, h n)

-- Two tests that nothing passes both
pub tally-disjoint :
    (n : ℕ) (f g : ℕ → Bool)
    → ((v : ℕ) → v < n → f v ≡ true → g v ≡ true → ⊥)
    → tally n f + tally n g ≤ n
unfolding tally
tally-disjoint zero f g h = omega arith
tally-disjoint (suc n) f g h = ground (arith, tally-disjoint n f g (λ v lt. h v (omega arith)), h n)

-- One more number passes.
pub tally-add :
    (n i : ℕ) (f : ℕ → Bool)
    → f i ≡ false
    → tally n (λ v. (i == v) || f v) ≡ tally n f + (if ltb i n then 1 else 0)
unfolding tally
tally-add zero i f h = ground arith
tally-add (suc n) i f h = ground (arith, tally-add n i f h)

pub length-others : (n me : ℕ) → length (others n me) + (if ltb me n then 1 else 0) ≡ n
length-others zero me = ground arith
length-others (suc n) me = ground (arith, length-others n me)

pub tally-eq : (n : ℕ) (f g : ℕ → Bool) → ((v : ℕ) → f v ≡ g v) → tally n f ≡ tally n g
unfolding tally
tally-eq zero f g h = refl
tally-eq (suc n) f g h = ground (arith, tally-eq n f g h, h n)
