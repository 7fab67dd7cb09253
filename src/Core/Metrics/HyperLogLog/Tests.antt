-- ===== src/Core/Metrics/HyperLogLog/Tests.antt =====
-- Sketches of a few digests, with texts that are the bytes themselves.
use wardx.Prelude.{
  eqb, length, ok, ◌>>=◌, ℕ, ◌+◌, ◌%◌, ◌^◌, ◌≤◌, ◌≡◌, refl, Bool, true, false, ◌&&◌, List, [], ◌∷◌,
  arith,
}
use wardx.Core.Metrics.HyperLogLog.{
  Base64, encode_registers, decode_registers, snapshot, merge, create, zeros, all_ranks,
  rank_after_index, clz,
}
use wardx.Core.Metrics.HyperLogLog.Ranks.{rank_after_index-eq_clz}
use wardx.Core.Metrics.HyperLogLog.Merge.{
  add_all, sketch_of, encode_registers-decode, merge-snapshot,
}

same_bytes : List ℕ → List ℕ → Bool
same_bytes [] [] = true
same_bytes (x ∷ xs) (y ∷ ys) = eqb x y && same_bytes xs ys
same_bytes [] (y ∷ ys) = false
same_bytes (x ∷ xs) [] = false

same_bytes_refl : (xs : List ℕ) → same_bytes xs xs ≡ true
unfolding same_bytes
same_bytes_refl [] = refl
same_bytes_refl (x ∷ xs) = ground (arith, same_bytes_refl xs)

abbrev bytes : Base64
bytes = record { Text = List ℕ; encode = λ bs. bs; decode = λ bs. bs; same = same_bytes }

rank_of_low_bit : rank_after_index 1 ≡ 55
unfolding rank_after_index clz
rank_of_low_bit = refl

length-zeros-512 : length (zeros 512) ≡ 512
unfolding zeros
length-zeros-512 = refl

all_ranks-zeros-512 : all_ranks (zeros 512) ≡ true
unfolding zeros all_ranks
all_ranks-zeros-512 = refl

encode_registers-decode_example :
    (do
      text ← encode_registers bytes (zeros 512)
      decode_registers bytes (record { precision = 9; registers = text }))
    ≡ ok (zeros 512)
encode_registers-decode_example =
    encode_registers-decode bytes same_bytes_refl (λ bs h. refl) (zeros 512) length-zeros-512
      all_ranks-zeros-512

merge-snapshot_example :
    (snapshot bytes (add_all (1 ∷ 2 ∷ []) create) ≡ ok (sketch_of bytes (1 ∷ 2 ∷ [])))
    × (merge bytes (sketch_of bytes (1 ∷ 2 ∷ [])) (sketch_of bytes (3 ∷ []))
        ≡ ok (sketch_of bytes (1 ∷ 2 ∷ 3 ∷ [])))
merge-snapshot_example = merge-snapshot bytes same_bytes_refl (λ bs h. refl) (1 ∷ 2 ∷ []) (3 ∷ [])

rank_after_index-eq_clz_example :
    (rank_after_index 1 ≡ 1 + clz 55 (1 % 2 ^ 55))
    × (1 ≤ rank_after_index 1)
    × (rank_after_index 1 ≤ 56)
rank_after_index-eq_clz_example = rank_after_index-eq_clz 1
