-- ===== src/Core/Buffers/LogBuffer/Evict.antt =====
-- Which entry a full log buffer gives up.
use wardx.Prelude.{
  ltb, tests, Bool-cases, Option-cases, length, set, length-append, length-set, ok, ℕ, suc, ◌+◌,
  ◌≤◌, ◌<◌, String, ◌≡◌, refl, ap, ◌∙◌, inl, inr, Bool, false, Option, none, some, List, [], ◌∷◌,
  arith, ◌==◌,
}
use wardx.Core.Buffers.LogBuffer.{
  Log, LogBuffer, log_rank?, is_below, scan, replace, store, push, NoneBelow, IsVictim,
}

module _ {ℓ} {A : Type ℓ} where
  NoneBelow-le : (k m : ℕ) (es : List (Log A)) → k ≤ m → NoneBelow m es → NoneBelow k es
  NoneBelow-le k m [] h n = tt
  NoneBelow-le k m (e ∷ es) h n = (λ r p. omega (arith, n.0 r p), NoneBelow-le k m es h n.1)

  -- What `scan` may return from `victim` on.
  data Scanned (r : ℕ) (es : List (Log A)) (i : ℕ) (victim : Option ℕ) (out : Option ℕ)
      : Type ℓ where
    same : out ≡ victim → NoneBelow r es → Scanned r es i victim out
    found : (j k : ℕ) → out ≡ some (i + j) → k < r → IsVictim k j es → Scanned r es i victim out

  -- an entry that is not below the victim so far
  Scanned-skip :
      (e : Log A) (es : List (Log A)) (i r : ℕ) (victim out : Option ℕ)
      → is_below (log_rank? e.level) r ≡ false
      → Scanned r es (suc i) victim out
      → Scanned r (e ∷ es) i victim out
  unfolding is_below
  Scanned-skip e es i r victim out high (same p n) = same p (λ m q. ground (arith, q), n)
  Scanned-skip e es i r victim out high (found j k p lt v) =
      found (suc j) k (p ∙ ap some (omega arith)) lt (λ m q. ground (arith, q), v)

  Scanned-take :
      (e : Log A) (es : List (Log A)) (i r k : ℕ) (victim out : Option ℕ)
      → log_rank? e.level ≡ some k
      → k < r
      → Scanned k es (suc i) (some i) out
      → Scanned r (e ∷ es) i victim out
  Scanned-take e es i r k victim out rank lt (same p n) =
      found 0 k (p ∙ ap some (omega arith)) lt (rank, n)
  Scanned-take e es i r k victim out rank lt (found j k' p lt' v) =
      found (suc j) k' (p ∙ ap some (omega arith)) (omega arith) (λ m q. ground (arith, q, rank), v)

  scan-Scanned :
      (es : List (Log A)) (i r : ℕ) (victim : Option ℕ) → Scanned r es i victim (scan es i r victim)
  unfolding scan
  scan-Scanned [] i r victim = same refl tt
  scan-Scanned (e ∷ es) i r victim = elim (Option-cases (log_rank? e.level)) [
    | inl none_known ↦
        Scanned-skip e es i r victim _ (rw (none_known, is_below))
          (rw (none_known, is_below) (scan-Scanned es (suc i) r victim))
    | inr (k, rank) ↦ elim (Bool-cases (ltb k r)) [
      | inl low ↦
          rw (rank, low)
            (Scanned-take e es i r k victim _ rank (omega (tests, low))
              (scan-Scanned es (suc i) k (some i)))
      | inr high ↦
          rw (rank, high)
            (Scanned-skip e es i r victim _ (rw rank high) (scan-Scanned es (suc i) r victim))
    ]
  ]

  -- What a push of `entry`, of rank `r`, makes of a full buffer `old`.
  pub data Evicts (r : ℕ) (entry : Log A) (old new : List (Log A)) : Type ℓ where
    refused : new ≡ old → NoneBelow r old → Evicts r entry old new
    replaced : (j k : ℕ) → k < r → IsVictim k j old → new ≡ set old j entry → Evicts r entry old new

  replace-Evicts :
      (r : ℕ) (entry : Log A) (old : List (Log A)) (victim : Option ℕ)
      → Scanned r old 0 none victim
      → Evicts r entry old (replace old victim entry)
  unfolding replace
  replace-Evicts r entry old victim (same p n) = refused (rw p) n
  replace-Evicts r entry old victim (found j k p lt v) =
      replaced j k lt v (rw p (ap (λ n. set old n entry) (omega arith)))

  -- A push of a valid entry on a full buffer reports a drop. Either the buffer is unchanged and no
  -- entry in it ranks below the new one, or the new entry takes the place of the first of the least
  -- severe entries, which ranks below it.
  pub push-Evicts :
      (now : ℕ) (level message : String) (attrs : Option A) (b : LogBuffer A) (r : ℕ)
      → log_rank? level ≡ some r
      → (message == "") ≡ false
      → b.max ≤ length b.buf
      → (new : List (Log A)) × (push now level message attrs b ≡ ok (false, record b { buf = new }))
        × Evicts r
            (record { time = now; level = level; message = message; attrs = attrs })
            b.buf
            new
  unfolding push
  push-Evicts now level message attrs b r rank named full =
      let entry : Log A = record { time = now; level = level; message = message; attrs = attrs } in
      (
        replace b.buf (scan b.buf 0 r none) entry,
        ground arith,
        replace-Evicts r entry b.buf (scan b.buf 0 r none) (scan-Scanned b.buf 0 r none),
      )

  length-replace :
      (buf : List (Log A)) (victim : Option ℕ) (entry : Log A)
      → length (replace buf victim entry) ≡ length buf
  unfolding replace
  length-replace buf none entry = refl
  length-replace buf (some i) entry = length-set buf i entry

  store-length :
      (entry : Log A) (r : ℕ) (b : LogBuffer A)
      → length b.buf ≤ b.max
      → ((store entry r b).1.max ≡ b.max)
        × (length (store entry r b).1.buf ≤ (store entry r b).1.max)
  unfolding store
  store-length entry r b within =
      ground
        (arith, length-append b.buf (entry ∷ []), length-replace b.buf (scan b.buf 0 r none) entry)

  -- From a buffer within its limit, a push that does not throw leads to one within the same limit.
  pub push-length :
      (now : ℕ) (level message : String) (attrs : Option A) (b : LogBuffer A) (kept : Bool)
      (b' : LogBuffer A)
      → push now level message attrs b ≡ ok (kept, b')
      → length b.buf ≤ b.max
      → (b'.max ≡ b.max) × (length b'.buf ≤ b'.max)
  unfolding push
  push-length now level message attrs b kept b' h within = elim (Option-cases (log_rank? level)) [
    | inl unknown ↦ absurd (cc (h, unknown))
    | inr (r, rank) ↦ ground (
      arith,
      rank,
      h,
      store-length (record { time = now; level = level; message = message; attrs = attrs }) r b
          within,
    )
  ]
