-- ===== src/Server/Recent/Events/Ring.antt =====
-- The ring of events holds the newest ones, in order.
use native.Mathlib.Nat.{mod-lt, mod-eq_of_lt, mod-eq-sub-mod}
use wardx.Prelude.{
  ltb, if◌then◌else◌, ltb→lt, tests, Bool-cases, length, get_elem?, set, take, length-append,
  length-set, length-take, take_all, take-append_left, ℕ, zero, suc, ◌+◌, ◌-◌, ◌%◌, ◌≤◌, ◌<◌, ◌≡◌,
  refl, sym, ap, ◌∙◌, ◌≢◌, inl, inr, Bool, false, Option, none, some, List, [], ◌∷◌, ◌++◌, arith,
  ◌==◌,
}
use wardx.Server.Recent.Events.{
  Row, RecentEvents, store, push, index, or_skip, rows_from, newest_first,
}

index_wrap : (m n o : ℕ) → n < m → suc o ≤ m → ltb (n + 1) m ≡ false → (n + 1) % m ≡ 0
index_wrap m n o h k last = grind (arith, tests, last)

index_last : (m n o : ℕ) → n < m → ltb (n + 1) m ≡ false → 0 + m - (o + 1) ≡ n + m - o - m
index_last m n o h last = omega (tests, last, h)

-- one step back from the new place is the old place
index-next : (m n o : ℕ) → n < m → suc o ≤ m → ((n + 1) % m + m - (o + 1)) % m ≡ (n + m - o) % m
index-next m n o h k = elim (Bool-cases (ltb (n + 1) m)) [
  | inl less ↦
      rw (mod-eq_of_lt {n = n + 1} {m = m} (omega (tests, less)))
        (ap (λ j. j % m) {x = n + 1 + m - (o + 1)} {y = n + m - o} (omega arith))
  | inr last ↦ rw (index_wrap m n o h k last) (
      ap (λ j. j % m) {x = 0 + m - (o + 1)} {y = n + m - o - m} (index_last m n o h last)
      ∙ sym (mod-eq-sub-mod {n = n + m - o} {m = m} (omega (tests, last, k))))
]

index-ne : (m n o : ℕ) → n < m → 1 ≤ o → o < m → (n + m - o) % m ≢ n
index-ne m n o h l k = grind arith

index-last : (m n : ℕ) → n < m → (n + m - 0) % m ≡ n
index-last m n h = grind arith

module _ {ℓ} {A : Type ℓ} where
  get_elem?-set : (xs : List A) (i : ℕ) (v : A) → i < length xs → get_elem? (set xs i v) i ≡ some v
  get_elem?-set [] i v h = absurd (omega (arith, h))
  get_elem?-set (x ∷ xs) zero v h = refl
  get_elem?-set (x ∷ xs) (suc i) v h = get_elem?-set xs i v (omega (arith, h))

  get_elem?-set_other :
      (xs : List A) (i j : ℕ) (v : A) → j ≢ i → get_elem? (set xs i v) j ≡ get_elem? xs j
  get_elem?-set_other [] i j v h = refl
  get_elem?-set_other (x ∷ xs) zero zero v h = absurd (h refl)
  get_elem?-set_other (x ∷ xs) zero (suc j) v h = refl
  get_elem?-set_other (x ∷ xs) (suc i) zero v h = refl
  get_elem?-set_other (x ∷ xs) (suc i) (suc j) v h =
      get_elem?-set_other xs i j v (λ e. h (ap suc e))

module _ {V : Type 0} where
  -- The rows at two offsets and at one more.
  or_skip-append :
      (o : Option (Option (Row V))) (xs ys : List (Row V))
      → or_skip o (xs ++ ys) ≡ or_skip o xs ++ ys
  or_skip-append none xs ys = refl
  or_skip-append (some none) xs ys = refl
  or_skip-append (some (some r)) xs ys = refl

  length-or_skip :
      (o : Option (Option (Row V))) (xs : List (Row V)) → length (or_skip o xs) ≤ length xs + 1
  length-or_skip none xs = omega arith
  length-or_skip (some none) xs = omega arith
  length-or_skip (some (some r)) xs = omega arith

  -- The offsets seen from both ends: the row at the last offset stands last.
  rows_from-last :
      (s : RecentEvents V) (o c : ℕ)
      → rows_from s o (suc c) ≡ rows_from s o c ++ or_skip (get_elem? s.buf (index s (o + c))) []
  unfolding rows_from
  rows_from-last s o zero =
      ap (λ j. or_skip (get_elem? s.buf (index s j)) []) {x = o} {y = o + 0} (omega arith)
  rows_from-last s o (suc c) =
      ap (or_skip (get_elem? s.buf (index s o))) (rows_from-last s (o + 1) c)
      ∙ or_skip-append (get_elem? s.buf (index s o)) (rows_from s (o + 1) c)
          (or_skip (get_elem? s.buf (index s (o + 1 + c))) [])
      ∙ ap (λ j. rows_from s o (suc c) ++ or_skip (get_elem? s.buf (index s j)) []) {x = o + 1 + c}
          {y = o + suc c} (omega arith)

  length-rows_from : (s : RecentEvents V) (o c : ℕ) → length (rows_from s o c) ≤ c
  unfolding rows_from
  length-rows_from s o zero = omega arith
  length-rows_from s o (suc c) = omega (
    arith,
    length-or_skip (get_elem? s.buf (index s o)) (rows_from s (o + 1) c),
    length-rows_from s (o + 1) c,
  )

  index-store :
      (s : RecentEvents V) (row : Row V) (o : ℕ)
      → s.next < s.max
      → suc o ≤ s.max
      → index (store row s) (o + 1) ≡ index s o
  unfolding store
  index-store s row o h k = index-next s.max s.next o h k

  -- Storing a row moves every other row one offset back.
  rows_from-store :
      (s : RecentEvents V) (row : Row V) (o c : ℕ)
      → s.next < s.max
      → 1 ≤ o
      → o + c ≤ s.max
      → rows_from (store row s) (o + 1) c ≡ rows_from s o c
  unfolding rows_from store
  rows_from-store s row o zero h l k = refl
  rows_from-store s row o (suc c) h l k =
      ap (λ i. or_skip (get_elem? (store row s).buf i) (rows_from (store row s) (o + 1 + 1) c))
        (index-store s row o h (omega (arith, k)))
      ∙ ap (λ x. or_skip x (rows_from (store row s) (o + 1 + 1) c))
          (get_elem?-set_other s.buf s.next (index s o) (some row)
            (index-ne s.max s.next o h l (omega (arith, k))))
      ∙ ap (or_skip (get_elem? s.buf (index s o)))
          (rows_from-store s row (o + 1) c h (omega arith) (omega (arith, k)))

  rows_from-store_first :
      (s : RecentEvents V) (row : Row V) (c : ℕ)
      → length s.buf ≡ s.max
      → s.next < s.max
      → 1 + c ≤ s.max
      → rows_from (store row s) 1 (suc c) ≡ row ∷ rows_from s 1 c
  unfolding rows_from store
  rows_from-store_first s row c w h k =
      ap (λ i. or_skip (get_elem? (store row s).buf i) (rows_from (store row s) 2 c))
        (index-store s row 0 h (omega (arith, k)) ∙ index-last s.max s.next h)
      ∙ ap (λ x. or_skip x (rows_from (store row s) 2 c))
          (get_elem?-set s.buf s.next (some row) (omega (arith, w, h)))
      ∙ ap (λ rows. row ∷ rows) (rows_from-store s row 1 c h (omega arith) (omega (arith, k)))

  pub record IsValid (s : RecentEvents V) : Type 0 where
    pub whole : length s.buf ≡ s.max
    pub inside : s.next < s.max
    pub sized : s.size ≤ s.max
    pub stored : length (newest_first s) ≡ s.size

  -- The rows at all offsets but the last are all rows but the last.
  rows_from-take :
      (s : RecentEvents V) (c : ℕ)
      → length (rows_from s 1 (suc c)) ≡ suc c
      → (length (rows_from s 1 c) ≡ c) × (take c (rows_from s 1 (suc c)) ≡ rows_from s 1 c)
  rows_from-take s c h = (
    counted,
    ap (take c) (rows_from-last s 1 c)
        ∙ take-append_left c (rows_from s 1 c) (or_skip (get_elem? s.buf (index s (1 + c))) [])
            counted,
  )
    where
      counted : length (rows_from s 1 c) ≡ c
      counted = omega (
        arith,
        h,
        ap (λ (l : List (Row V)). length l) (rows_from-last s 1 c),
        length-append (rows_from s 1 c) (or_skip (get_elem? s.buf (index s (1 + c))) []),
        length-or_skip (get_elem? s.buf (index s (1 + c))) [],
        length-rows_from s 1 c,
      )

  -- Storing a row on a ring that is not full.
  newest_first-store_free :
      (s : RecentEvents V) (row : Row V)
      → IsValid s
      → s.size < s.max
      → rows_from (store row s) 1 (s.size + 1) ≡ take s.max (row ∷ newest_first s)
  unfolding newest_first
  newest_first-store_free s row v free =
      ap (λ c. rows_from (store row s) 1 c) {x = s.size + 1} {y = suc s.size} (omega arith)
      ∙ rows_from-store_first s row s.size v.whole v.inside (omega (arith, free))
      ∙ sym (take_all s.max (row ∷ rows_from s 1 s.size) (omega (arith, v.stored, free)))

  -- Storing a row on a full ring, whose oldest row goes.
  newest_first-store_full :
      (s : RecentEvents V) (row : Row V) (c : ℕ)
      → IsValid s
      → s.max ≡ suc c
      → s.size ≡ suc c
      → rows_from (store row s) 1 s.size ≡ take s.max (row ∷ newest_first s)
  unfolding newest_first
  newest_first-store_full s row c v e f =
      ap (λ n. rows_from (store row s) 1 n) f
      ∙ rows_from-store_first s row c v.whole v.inside (omega (arith, e))
      ∙ sym (
          ap (λ m. take m (row ∷ rows_from s 1 s.size)) e
          ∙ ap (λ n. take (suc c) (row ∷ rows_from s 1 n)) f
          ∙ ap (λ rows. row ∷ rows)
              (rows_from-take s c (ap (λ n. length (rows_from s 1 n)) (sym f) ∙ v.stored ∙ f)).1)

  newest_first-store :
      (s : RecentEvents V) (row : Row V)
      → IsValid s
      → newest_first (store row s) ≡ take s.max (row ∷ newest_first s)
  unfolding newest_first store
  newest_first-store s row v = elim (Bool-cases (ltb s.size s.max)) [
    | inl free ↦
        ap (λ (b : Bool). rows_from (store row s) 1 (if b then s.size + 1 else s.size)) free
        ∙ (newest_first-store_free s row v (ltb→lt _ _ free))
    | inr full ↦
        ap (λ (b : Bool). rows_from (store row s) 1 (if b then s.size + 1 else s.size)) full
        ∙ (newest_first-store_full s row (s.max - 1) v (omega (arith, v.inside))
            (omega (tests, full, v.sized, v.inside)))
  ]

  store-IsValid : (s : RecentEvents V) (row : Row V) → IsValid s → IsValid (store row s)
  unfolding store
  store-IsValid s row v = record {
    whole = length-set s.buf s.next (some row) ∙ v.whole;
    inside = mod-lt (s.next + 1) (omega (arith, v.inside));
    sized = ground (arith, v.sized);
    stored =
        ap (λ (l : List (Row V)). length l) (newest_first-store s row v)
        ∙ length-take s.max (row ∷ newest_first s)
        ∙ ground (arith, v.stored, v.sized);
  }

  -- A row with a name that is pushed on a valid ring leaves a valid ring, whose rows are those of
  -- before with the new one in front, up to `max` of them.
  pub push-newest :
      (s : RecentEvents V) (row : Row V)
      → IsValid s
      → (row.name == "") ≡ false
      → IsValid (push row s) × (newest_first (push row s) ≡ take s.max (row ∷ newest_first s))
  unfolding push
  push-newest s row v named = rw named (store-IsValid s row v, newest_first-store s row v)
