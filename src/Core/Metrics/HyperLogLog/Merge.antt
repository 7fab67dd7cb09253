-- ===== src/Core/Metrics/HyperLogLog/Merge.antt =====
-- Sketches merge as the streams that they count.
use wardx.Prelude.{
  ltb, if◌then◌else◌, length, ok, ◌>>=◌, ℕ, zero, suc, ◌≤◌, ◌<◌, ◌≡◌, refl, sym, ap, ◌∙◌, true,
  List, [], ◌∷◌, ◌++◌, arith,
}
use wardx.Core.Metrics.HyperLogLog.{
  raise, HyperLogLog, create, add, zeros, merge_loop, all_ranks, assert_registers, register_count,
  max_rank, rank_after_index, register_index, Base64, Sketch, encode_registers, decode_registers,
  snapshot, merge,
}
use wardx.Core.Metrics.HyperLogLog.Ranks.{rank_after_index-eq_clz}

merge_loop-raise :
    (l r : List ℕ) (i k : ℕ) → merge_loop (raise l i k) r ≡ raise (merge_loop l r) i k
unfolding merge_loop raise
merge_loop-raise [] r i k = refl
merge_loop-raise (x ∷ l) [] zero k = refl
merge_loop-raise (x ∷ l) [] (suc i) k = refl
merge_loop-raise (x ∷ l) (y ∷ r) zero k = ap (λ z. z ∷ merge_loop l r) (ground arith)
merge_loop-raise (x ∷ l) (y ∷ r) (suc i) k =
    ap (λ zs. (if ltb x y then y else x) ∷ zs) (merge_loop-raise l r i k)

merge_loop_comm : (l r : List ℕ) → length l ≡ length r → merge_loop l r ≡ merge_loop r l
unfolding merge_loop
merge_loop_comm [] [] h = refl
merge_loop_comm [] (y ∷ r) h = absurd (omega (arith, h))
merge_loop_comm (x ∷ l) [] h = absurd (omega (arith, h))
merge_loop_comm (x ∷ l) (y ∷ r) h = ground (arith, merge_loop_comm l r)

merge_loop-zeros : (n : ℕ) (r : List ℕ) → length r ≡ n → merge_loop (zeros n) r ≡ r
unfolding merge_loop zeros
merge_loop-zeros zero [] h = refl
merge_loop-zeros zero (y ∷ r) h = absurd (omega (arith, h))
merge_loop-zeros (suc n) [] h = absurd (omega (arith, h))
merge_loop-zeros (suc n) (y ∷ r) h = ground (arith, merge_loop-zeros n r)

length-raise : (l : List ℕ) (i k : ℕ) → length (raise l i k) ≡ length l
unfolding raise
length-raise [] i k = refl
length-raise (x ∷ l) zero k = refl
length-raise (x ∷ l) (suc i) k = omega (arith, length-raise l i k)

length-zeros : (n : ℕ) → length (zeros n) ≡ n
unfolding zeros
length-zeros zero = refl
length-zeros (suc n) = omega (arith, length-zeros n)

all_ranks-raise :
    (l : List ℕ) (i k : ℕ) → k ≤ max_rank → all_ranks l ≡ true → all_ranks (raise l i k) ≡ true
unfolding raise all_ranks
all_ranks-raise [] i k h a = refl
all_ranks-raise (x ∷ l) zero k h a = ground arith
all_ranks-raise (x ∷ l) (suc i) k h a = ground (arith, all_ranks-raise l i k)

all_ranks-zeros : (n : ℕ) → all_ranks (zeros n) ≡ true
unfolding zeros all_ranks
all_ranks-zeros zero = refl
all_ranks-zeros (suc n) = all_ranks-zeros n

-- The sketch after a stream of digests.
abbrev pub add_all : List ℕ → HyperLogLog → HyperLogLog
add_all [] s = s
add_all (d ∷ ds) s = add_all ds (add d s)

abbrev IsSketch : List ℕ → Type 0
IsSketch registers = (length registers ≡ register_count) × (all_ranks registers ≡ true)

add_all-IsSketch :
    (ds : List ℕ) (s : HyperLogLog) → IsSketch s.registers → IsSketch (add_all ds s).registers
unfolding add
add_all-IsSketch [] s v = v
add_all-IsSketch (d ∷ ds) s v = add_all-IsSketch ds (add d s) (
  length-raise s.registers (register_index d) (rank_after_index d) ∙ v.0,
  all_ranks-raise s.registers (register_index d) (rank_after_index d) (rank_after_index-eq_clz d).2
      v.1,
)

merge_loop-add_all :
    (ds : List ℕ) (s t : HyperLogLog) (r : List ℕ)
    → t.registers ≡ merge_loop s.registers r
    → merge_loop (add_all ds s).registers r ≡ (add_all ds t).registers
unfolding add
merge_loop-add_all [] s t r e = sym e
merge_loop-add_all (d ∷ ds) s t r e = merge_loop-add_all ds (add d s) (add d t) r (
    ap (λ l. raise l (register_index d) (rank_after_index d)) e
    ∙ sym (merge_loop-raise s.registers r (register_index d) (rank_after_index d)))

add_all-append :
    (ds es : List ℕ) (s : HyperLogLog) → add_all (ds ++ es) s ≡ add_all es (add_all ds s)
add_all-append [] es s = refl
add_all-append (d ∷ ds) es s = add_all-append ds es (add d s)

-- Each byte is one.
abbrev pub AllBytes : List ℕ → Type 0
AllBytes [] = Unit {0}
AllBytes (x ∷ xs) = (x < 256) × AllBytes xs

all_ranks-AllBytes : (l : List ℕ) → all_ranks l ≡ true → AllBytes l
unfolding all_ranks
all_ranks-AllBytes [] h = tt
all_ranks-AllBytes (x ∷ l) h = (ground arith, all_ranks-AllBytes l (ground arith))

assert_registers_lem : (l : List ℕ) → IsSketch l → assert_registers l ≡ ok tt
unfolding assert_registers
assert_registers_lem l v = ground (arith, v)

create-IsSketch : IsSketch create.registers
unfolding create
create-IsSketch = (length-zeros register_count, all_ranks-zeros register_count)

stream-IsSketch : (ds : List ℕ) → IsSketch (add_all ds create).registers
stream-IsSketch ds = add_all-IsSketch ds create create-IsSketch

merge_loop-create : (r : List ℕ) → length r ≡ register_count → merge_loop create.registers r ≡ r
unfolding create
merge_loop-create r h = merge_loop-zeros register_count r h

merge_loop-streams :
    (ds es : List ℕ)
    → merge_loop (add_all ds create).registers (add_all es create).registers
      ≡ (add_all (ds ++ es) create).registers
merge_loop-streams ds es =
    merge_loop_comm (add_all ds create).registers (add_all es create).registers
      ((stream-IsSketch ds).0 ∙ sym (stream-IsSketch es).0)
    ∙ merge_loop-add_all es create (add_all ds create) (add_all ds create).registers
        (sym (merge_loop-create (add_all ds create).registers (stream-IsSketch ds).0))
    ∙ ap (λ (s : HyperLogLog). s.registers) (sym (add_all-append ds es create))

module _ (base64 : Base64) where
  open base64 use {Text, encode, decode, same}

  -- What the sketch of a stream looks like in a frame.
  abbrev pub sketch_of : List ℕ → Sketch Text
  sketch_of digests = record {
    precision = 9;
    registers = encode (add_all digests create).registers;
  }

  module _ (same_refl : (t : Text) → same t t ≡ true)
      (decode-encode : (bytes : List ℕ) → AllBytes bytes → decode (encode bytes) ≡ bytes) where
    decode_registers-encode :
        (l : List ℕ)
        → IsSketch l
        → decode_registers base64 (record { precision = 9; registers = encode l }) ≡ ok l
    unfolding decode_registers
    decode_registers-encode l v =
        rw (decode-encode l (all_ranks-AllBytes l v.1))
          (rw (same_refl (encode l)) (rw (assert_registers_lem l v)))

    -- A sketch of registers within their limits can be sent, and is read back as it was.
    pub encode_registers-decode :
        (registers : List ℕ)
        → length registers ≡ register_count
        → all_ranks registers ≡ true
        → (do
          text ← encode_registers base64 registers
          decode_registers base64 (record { precision = 9; registers = text }))
          ≡ ok registers
    unfolding encode_registers
    encode_registers-decode registers whole ranks =
        rw (assert_registers_lem registers (whole, ranks))
          (decode_registers-encode registers (whole, ranks))

    -- A new sketch that counts a stream of digests can be sent. The merge of the sketches of two streams
    -- is the sketch of the one stream after the other.
    pub merge-snapshot :
        (ds es : List ℕ)
        → (snapshot base64 (add_all ds create) ≡ ok (sketch_of ds))
          × (merge base64 (sketch_of ds) (sketch_of es) ≡ ok (sketch_of (ds ++ es)))
    unfolding snapshot merge encode_registers
    merge-snapshot ds es = (
      rw (assert_registers_lem (add_all ds create).registers (stream-IsSketch ds)),
      rw (decode_registers-encode (add_all ds create).registers (stream-IsSketch ds)) (
          rw (decode_registers-encode (add_all es create).registers (stream-IsSketch es)) (
            rw (merge_loop-streams ds es) (
              rw (
                assert_registers_lem (add_all (ds ++ es) create).registers
                  (stream-IsSketch (ds ++ es)))))),
    )
