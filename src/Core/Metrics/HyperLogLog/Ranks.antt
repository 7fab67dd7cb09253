-- ===== src/Core/Metrics/HyperLogLog/Ranks.antt =====
-- The rank of a digest is one more than the leading zeros of the bits that follow the index.
use native.Mathlib.Nat.{pow-suc, mul-le-mul_right}
use wardx.Prelude.{
  leb, eqb, leb→le, leb→lt, tests, Bool-cases, ℕ, zero, suc, ◌+◌, ◌*◌, ◌/◌, ◌%◌, ◌^◌, ◌≤◌, ◌<◌, ◌≡◌,
  refl, sym, ap, ◌∙◌, inl, inr, true, false, arith,
}
use wardx.Core.Metrics.HyperLogLog.{clz, rank_after_index, remaining_high, max_rank}

-- `k + j`, so that `clz` takes a step at `suc k`.
abbrev widen : ℕ → ℕ → ℕ
widen zero j = j
widen (suc k) j = suc (widen k j)

pow-pos : (k : ℕ) → 1 ≤ 2 ^ k
pow-pos zero = omega arith
pow-pos (suc k) = omega (arith, pow-suc 2 k, pow-pos k)

pow-widen : (k j : ℕ) → 2 ^ widen k j ≡ 2 ^ k * 2 ^ j
pow-widen zero j = omega arith
pow-widen (suc k) j = grind (arith, pow-suc 2 (widen k j), pow-suc 2 k, pow-widen k j)

clz-le : (width x : ℕ) → clz width x ≤ width
unfolding clz
clz-le zero x = omega arith
clz-le (suc width) x = ground (arith, clz-le width x)

clz-full : (j x : ℕ) → 2 ^ j ≤ x → clz j x ≡ 0
unfolding clz
clz-full zero x h = refl
clz-full (suc j) x h = ground (arith, pow-suc 2 j, pow-pos j)

pow-le-widen : (k j : ℕ) → 2 ^ j ≤ 2 ^ widen k j
pow-le-widen zero j = omega arith
pow-le-widen (suc k) j = omega (arith, pow-suc 2 (widen k j), pow-le-widen k j)

above : (k j x low : ℕ) → 2 ^ k ≤ x → leb (2 ^ widen k j) (x * 2 ^ j + low) ≡ true
above k j x low h = rw (pow-widen k j) (grind (arith, mul-le-mul_right (2 ^ j) h))

below : (k j x low : ℕ) → low < 2 ^ j → x < 2 ^ k → leb (2 ^ widen k j) (x * 2 ^ j + low) ≡ false
below k j x low h l =
    rw (pow-widen k j) (grind (arith, mul-le-mul_right {m = suc x} {n = 2 ^ k} (2 ^ j) l))

-- The bits below the leading one do not count.
clz-split : (k j x low : ℕ) → low < 2 ^ j → 1 ≤ x → clz (widen k j) (x * 2 ^ j + low) ≡ clz k x
unfolding clz
clz-split zero j x low h p = clz-full j (x * 2 ^ j + low) (grind (arith, p))
clz-split (suc k) j x low h p = elim (Bool-cases (leb (2 ^ k) x)) [
  | inl large ↦ rw (large, above k j x low (leb→le _ _ large))
  | inr small ↦ rw (small, below k j x low h (leb→lt _ _ small)) (ap suc (clz-split k j x low h p))
]

-- Bits that are zero count one each.
clz-widen : (k j x : ℕ) → x < 2 ^ j → clz (widen k j) x ≡ k + clz j x
unfolding clz
clz-widen zero j x h = omega arith
clz-widen (suc k) j x h = ground (arith, pow-le-widen k j, clz-widen k j x h)

-- The bits of the digest that follow the index, from its two halves.
high : ℕ → ℕ
high digest = digest / 2 ^ 32 % 2 ^ 23

remaining_high-eq : (digest : ℕ) → remaining_high digest ≡ high digest * 2 ^ 9 + 0
unfolding high
remaining_high-eq digest = omega arith

halves : (digest : ℕ) → digest % 2 ^ 55 ≡ high digest * 2 ^ 32 + digest % 2 ^ 32
unfolding high
halves digest = omega arith

rank-low : (digest : ℕ) → high digest ≡ 0 → clz 55 (digest % 2 ^ 55) ≡ 23 + clz 32 (digest % 2 ^ 32)
rank-low digest e =
    ap (clz 55) {x = digest % 2 ^ 55} {y = digest % 2 ^ 32} (omega (arith, halves digest, e))
    ∙ clz-widen 23 32 (digest % 2 ^ 32) (omega arith)

rank-high :
    (digest : ℕ) → 1 ≤ high digest → clz 32 (remaining_high digest) ≡ clz 55 (digest % 2 ^ 55)
rank-high digest p =
    ap (clz 32) (remaining_high-eq digest)
    ∙ clz-split 23 9 (high digest) 0 (omega arith) p
    ∙ sym (
        ap (clz 55) (halves digest)
        ∙ clz-split 23 32 (high digest) (digest % 2 ^ 32) (omega arith) p)

-- The rank of a digest, computed from two halves of 32 bits, is one more than the leading zeros among
-- the 55 bits that follow the index, and so lies between 1 and the greatest rank.
pub rank_after_index-eq_clz :
    (digest : ℕ)
    → (rank_after_index digest ≡ 1 + clz 55 (digest % 2 ^ 55))
      × (1 ≤ rank_after_index digest)
      × (rank_after_index digest ≤ max_rank)
unfolding rank_after_index
rank_after_index-eq_clz digest =
    (equal, omega (arith, equal), omega (arith, equal, clz-le 55 (digest % 2 ^ 55)))
  where
    equal : rank_after_index digest ≡ 1 + clz 55 (digest % 2 ^ 55)
    equal = elim (Bool-cases (eqb (remaining_high digest) 0)) [
      | inl zero_high ↦
          rw zero_high
            (omega (arith, rank-low digest (omega (tests, zero_high, remaining_high-eq digest))))
      | inr some_high ↦
          rw some_high
            (omega (arith, rank-high digest (omega (tests, some_high, remaining_high-eq digest))))
    ]
