-- ===== src/Bits.antt =====
-- Bit masks: `&`, `|` and `~` on unsigned words, read bit by bit. The native operations have no laws
-- at variables but their definitions; here they get one law each, on the bit at any place.
pub mod Masks
use Prim.Native.Nat.{digits, bitwise, bit_and-bitwise, bit_or-bitwise}
use native.Mathlib.Nat.{pow-suc}
use wepoll_ex.Prelude.{
  ap, ℕ, zero, suc, ◌+◌, ◌-◌, ◌*◌, ◌/◌, ◌%◌, ◌^◌, ◌≤◌, ◌<◌, min, max, bit_and, bit_or, ◌≡◌, refl,
  Bool, false, ◌&&◌, ◌||◌, not, arith, ltb, ◌==◌, Bool-cases, inl, inr,
}

module _ (z : ℕ → ℕ) (f : ℕ → ℕ → ℕ) (ended : (b : ℕ) → z b ≡ z (b / 2) * 2 + f 0 (b % 2)) where
  digits_enough : (n m a b : ℕ) → a ≤ n → a ≤ m → digits z f n a b ≡ digits z f m a b
  digits_enough zero zero zero b p q = refl
  digits_enough zero (suc m) zero b p q = refl
  digits_enough (suc n) zero zero b p q = refl
  digits_enough (suc n) (suc m) zero b p q = refl
  digits_enough zero zero (suc a) b p q = absurd (omega arith)
  digits_enough zero (suc m) (suc a) b p q = absurd (omega arith)
  digits_enough (suc n) zero (suc a) b p q = absurd (omega arith)
  digits_enough (suc n) (suc m) (suc a) b p q =
      omega (arith, digits_enough n m (suc a / 2) (b / 2) (omega arith) (omega arith))

  bitwise_step : (a b : ℕ) → bitwise z f a b ≡ bitwise z f (a / 2) (b / 2) * 2 + f (a % 2) (b % 2)
  bitwise_step zero b = ended b
  bitwise_step (suc a) b =
      omega (arith, digits_enough a (suc a / 2) (suc a / 2) (b / 2) (omega arith) (omega arith))

bit_and_last : (a b : ℕ) → bit_and a b ≡ bit_and (a / 2) (b / 2) * 2 + min (a % 2) (b % 2)
bit_and_last a b = omega (
  arith,
  bit_and-bitwise a b,
  bit_and-bitwise (a / 2) (b / 2),
  bitwise_step (λ b. zero) min (λ b. omega arith) a b,
)

bit_or_last : (a b : ℕ) → bit_or a b ≡ bit_or (a / 2) (b / 2) * 2 + max (a % 2) (b % 2)
bit_or_last a b = omega (
  arith,
  bit_or-bitwise a b,
  bit_or-bitwise (a / 2) (b / 2),
  bitwise_step (λ b. b) max (λ b. omega arith) a b,
)

-- `(x >> k) & 1`
unfoldable pub test_bit : ℕ → ℕ → Bool
test_bit zero x = x % 2 == 1
test_bit (suc k) x = test_bit k (x / 2)

-- `~x` on a word of `w` bits.
abbrev pub complement : ℕ → ℕ → ℕ
complement w x = 2 ^ w - 1 - x

pub test_bit-bit_and : (k a b : ℕ) → test_bit k (bit_and a b) ≡ (test_bit k a && test_bit k b)
unfolding test_bit
test_bit-bit_and zero a b = ground (arith, bit_and_last a b)
test_bit-bit_and (suc k) a b =
    let e : bit_and a b / 2 ≡ bit_and (a / 2) (b / 2) = omega (arith, bit_and_last a b) in
    rw e (test_bit-bit_and k (a / 2) (b / 2))

pub test_bit-bit_or : (k a b : ℕ) → test_bit k (bit_or a b) ≡ (test_bit k a || test_bit k b)
unfolding test_bit
test_bit-bit_or zero a b = ground (arith, bit_or_last a b)
test_bit-bit_or (suc k) a b =
    let e : bit_or a b / 2 ≡ bit_or (a / 2) (b / 2) = omega (arith, bit_or_last a b) in
    rw e (test_bit-bit_or k (a / 2) (b / 2))

pub test_bit-zero : (k : ℕ) → test_bit k 0 ≡ false
unfolding test_bit
test_bit-zero zero = refl
test_bit-zero (suc k) = test_bit-zero k

eq_of_bits_below : (n a b : ℕ) → a ≤ n → b ≤ n → ((k : ℕ) → test_bit k a ≡ test_bit k b) → a ≡ b
unfolding test_bit
eq_of_bits_below zero a b p q h = omega arith
eq_of_bits_below (suc n) a b p q h =
    let half : a / 2 ≡ b / 2 =
      eq_of_bits_below n (a / 2) (b / 2) (omega arith) (omega arith) (λ k. h (suc k)) in
    ground (arith, h 0)

-- Words with the same bits are the same word.
pub eq_of_bits : (a b : ℕ) → ((k : ℕ) → test_bit k a ≡ test_bit k b) → a ≡ b
eq_of_bits a b = eq_of_bits_below (a + b) a b (omega arith) (omega arith)

pub test_bit-complement :
    (w k x : ℕ) → x < 2 ^ w → test_bit k (complement w x) ≡ (ltb k w && not (test_bit k x))
unfolding test_bit
test_bit-complement zero k x h =
    let e : 2 ^ 0 - 1 - x ≡ 0 = omega arith in rw e (rw (test_bit-zero k) (ground arith))
test_bit-complement (suc w) zero x h = ground (arith, pow-suc 2 w)
test_bit-complement (suc w) (suc k) x h =
    let e : (2 ^ suc w - 1 - x) / 2 ≡ 2 ^ w - 1 - x / 2 = omega (arith, pow-suc 2 w) in
    rw e (rw (test_bit-complement w k (x / 2) (omega (arith, pow-suc 2 w))) (ground arith))

pub test_bit-pow : (k p : ℕ) → test_bit k (2 ^ p) ≡ (k == p)
unfolding test_bit
test_bit-pow zero zero = refl
test_bit-pow zero (suc p) = ground (arith, pow-suc 2 p)
test_bit-pow (suc k) zero = rw (test_bit-zero k) (ground arith)
test_bit-pow (suc k) (suc p) =
    let e : 2 ^ suc p / 2 ≡ 2 ^ p = omega (arith, pow-suc 2 p) in
    rw e (rw (test_bit-pow k p) (ground arith))

-- A word of which no bit is set is zero, and zero has none.
pub bit_and-eq_zero :
    (a b : ℕ) → ((k : ℕ) → (test_bit k a && test_bit k b) ≡ false) → bit_and a b ≡ 0
bit_and-eq_zero a b h =
    eq_of_bits (bit_and a b) 0 λ k. rw (test_bit-bit_and k a b, test_bit-zero k) (h k)

-- `(x & (1 << p)) == 0`
pub bit_and-pow_is_zero : (x p : ℕ) → (bit_and x (2 ^ p) == 0) ≡ not (test_bit p x)
bit_and-pow_is_zero x p = elim (Bool-cases (test_bit p x)) [
  | inl on ↦ ground (arith, on, here, stays)
  | inr off ↦ rw (off, bit_and-eq_zero x (2 ^ p) (gone off)) refl
]
  where
    here : test_bit p (bit_and x (2 ^ p)) ≡ (test_bit p x && (p == p))
    here = rw (test_bit-bit_and p x (2 ^ p), test_bit-pow p p) refl

    stays : bit_and x (2 ^ p) ≡ 0 → test_bit p (bit_and x (2 ^ p)) ≡ false
    stays e = rw e (test_bit-zero p)

    gone : test_bit p x ≡ false → (k : ℕ) → (test_bit k x && test_bit k (2 ^ p)) ≡ false
    gone off k = rw (test_bit-pow k p) (ground (arith, off))

bit_and-le_below : (n a b : ℕ) → a ≤ n → bit_and a b ≤ a
bit_and-le_below zero a b h =
    let none_left : a ≡ 0 = omega (arith, h) in
    let gone : bit_and a b ≡ 0 = eq_of_bits (bit_and a b) 0 λ k.
      ground (arith, test_bit-bit_and k a b, test_bit-zero k, ap (λ n. test_bit k n) none_left) in
    omega (arith, gone)
bit_and-le_below (suc n) a b h =
    let half = bit_and-le_below n (a / 2) (b / 2) (omega arith) in
    omega (arith, bit_and_last a b, half)

pub bit_and-le : (a b : ℕ) → bit_and a b ≤ a
bit_and-le a b = bit_and-le_below a a b (omega arith)
