-- ===== src/Bits/Masks.antt =====
-- Tests against masks, `(x & m) != 0`, and masks taken away, `x & ~m`, on words of 32 bits.
use wepoll_ex.Prelude.{
  ℕ, ◌^◌, ◌<◌, ◌≡◌, refl, sym, ap, ◌∙◌, Bool, true, false, ◌&&◌, ◌||◌, not, arith, bit_and, bit_or,
  ltb, ◌==◌, ℕ_discrete,
}
use wepoll_ex.Bits.{
  test_bit, complement, test_bit-bit_and, test_bit-bit_or, test_bit-zero, test_bit-complement,
  eq_of_bits,
}

abbrev pub meets : ℕ → ℕ → Bool
meets x m = not (bit_and x m == 0)

unfoldable pub without : ℕ → ℕ → ℕ
without x m = bit_and x (complement 32 m)

bit_or-eq_zero : (a b : ℕ) → (bit_or a b == 0) ≡ ((a == 0) && (b == 0))
bit_or-eq_zero a b = elim (ℕ_discrete (bit_or a b) 0) [
  | yes z ↦
      let off : (k : ℕ) → (test_bit k a || test_bit k b) ≡ false =
        λ k. sym (test_bit-bit_or k a b) ∙ ap (λ n. test_bit k n) z ∙ test_bit-zero k in
      let a_zero : a ≡ 0 = eq_of_bits a 0 λ k. ground (arith, off k, test_bit-zero k) in
      let b_zero : b ≡ 0 = eq_of_bits b 0 λ k. ground (arith, off k, test_bit-zero k) in
      ground (arith, a_zero, b_zero, z)
  | no n ↦ elim (ℕ_discrete a 0) [
    | no m ↦ ground (arith, n, m)
    | yes a_zero ↦ elim (ℕ_discrete b 0) [
      | no m ↦ ground (arith, n, m)
      | yes b_zero ↦ absurd (
          n (
            eq_of_bits (bit_or a b) 0 λ k. ground (
              arith,
              test_bit-bit_or k a b,
              ap (λ x. test_bit k x) a_zero,
              ap (λ x. test_bit k x) b_zero,
              test_bit-zero k,
            )))
    ]
  ]
]

pub meets-bit_or : (x a b : ℕ) → meets x (bit_or a b) ≡ (meets x a || meets x b)
meets-bit_or x a b =
    let spread : bit_and x (bit_or a b) ≡ bit_or (bit_and x a) (bit_and x b) =
      eq_of_bits (bit_and x (bit_or a b)) (bit_or (bit_and x a) (bit_and x b)) λ k.
        rw
          (
            test_bit-bit_and k x (bit_or a b),
            test_bit-bit_or k a b,
            test_bit-bit_or k (bit_and x a) (bit_and x b),
            test_bit-bit_and k x a,
            test_bit-bit_and k x b,
          )
          (spread_bits (test_bit k x) (test_bit k a) (test_bit k b)) in
    rw (spread, bit_or-eq_zero (bit_and x a) (bit_and x b))
      (de_morgan (bit_and x a == 0) (bit_and x b == 0))
  where
    spread_bits : (x a b : Bool) → (x && (a || b)) ≡ (x && a || x && b)
    spread_bits true a b = refl
    spread_bits false a b = refl

    de_morgan : (a b : Bool) → not (a && b) ≡ (not a || not b)
    de_morgan true b = refl
    de_morgan false b = refl

pub meets_comm : (a b : ℕ) → meets a b ≡ meets b a
meets_comm a b =
    ap (λ n. not (n == 0))
      (eq_of_bits (bit_and a b) (bit_and b a)
        λ k. ground (arith, test_bit-bit_and k a b, test_bit-bit_and k b a))

-- A word of 32 bits has no bit above them.
test_bit-below : (k m : ℕ) → m < 2 ^ 32 → test_bit k m ≡ (ltb k 32 && test_bit k m)
test_bit-below k m h =
    let twice : complement 32 (complement 32 m) ≡ m = omega arith in
    let e = test_bit-complement 32 k (complement 32 m) (omega arith) in
    let f = test_bit-complement 32 k m h in ground (arith, e, f, ap (λ n. test_bit k n) twice)

pub test_bit-without :
    (k x m : ℕ)
    → m < 2 ^ 32
    → test_bit k (without x m) ≡ (test_bit k x && (ltb k 32 && not (test_bit k m)))
unfolding without
test_bit-without k x m h =
    rw (test_bit-bit_and k x (complement 32 m), test_bit-complement 32 k m h) refl

pub meets-without_self : (x m : ℕ) → m < 2 ^ 32 → meets (without x m) m ≡ false
meets-without_self x m h =
    let gone : bit_and (without x m) m ≡ 0 = eq_of_bits (bit_and (without x m) m) 0 λ k.
      ground
        (arith, test_bit-bit_and k (without x m) m, test_bit-without k x m h, test_bit-zero k) in
    ground (arith, gone)

-- Taking a mask away leaves a test against another as it was, if the masks have no bit in common.
pub meets-without :
    (x m n : ℕ) → m < 2 ^ 32 → n < 2 ^ 32 → bit_and m n ≡ 0 → meets (without x m) n ≡ meets x n
meets-without x m n h l apart =
    let same : bit_and (without x m) n ≡ bit_and x n =
      eq_of_bits (bit_and (without x m) n) (bit_and x n) λ k. ground (
        arith,
        test_bit-bit_and k (without x m) n,
        test_bit-without k x m h,
        test_bit-bit_and k x n,
        test_bit-below k n l,
        test_bit-bit_and k m n,
        ap (λ a. test_bit k a) apart,
        test_bit-zero k,
      ) in
    ground (arith, same)
