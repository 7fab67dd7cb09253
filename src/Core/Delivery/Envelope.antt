-- ===== src/Core/Delivery/Envelope.antt =====
-- How many waiting frames go into one envelope.
use wardx.Prelude.{
  ltb, leb, Bool-cases, length, take, ℕ, suc, ◌+◌, ◌≤◌, ◌<◌, ◌≡◌, refl, ap, ◌⊎◌, inl, inr, true,
  ◌&&◌, ◌||◌, List, [], ◌∷◌, arith,
}
use wardx.Core.Frame.{Frame, row_count}
use wardx.Core.Delivery.{Sealed, envelope_loop, envelope_end}

module _ {Row Text : Type 0} (byte_length : Text → ℕ) where
  -- The rows of some frames, and the bytes of their texts with a comma after each.
  abbrev pub total_rows : List (Sealed Row Text) → ℕ
  total_rows [] = 0
  total_rows ((f, json) ∷ batch) = row_count f + total_rows batch

  abbrev pub total_bytes : List (Sealed Row Text) → ℕ
  total_bytes [] = 0
  total_bytes ((f, json) ∷ batch) = byte_length json + 1 + total_bytes batch

  module _ (max_items max_bytes : ℕ) where
    -- within the limits, the loop stays within them
    envelope_loop_fits :
        (batch : List (Sealed Row Text)) (items bytes : ℕ)
        → items ≤ max_items
        → bytes ≤ max_bytes
        → let n = envelope_loop byte_length max_items max_bytes batch true items bytes in
          (items + total_rows (take n batch) ≤ max_items)
          × (bytes + total_bytes (take n batch) ≤ max_bytes)
    unfolding envelope_loop
    envelope_loop_fits [] items bytes hi hb = (omega arith, omega arith)
    envelope_loop_fits ((f, json) ∷ batch) items bytes hi hb =
        elim (Bool-cases
          (ltb max_items (items + row_count f) || ltb max_bytes (bytes + byte_length json + 1))) [
            | inl stop ↦ rw stop (omega arith, omega arith)
            | inr go ↦
                let rest =
                  envelope_loop_fits batch (items + row_count f) (bytes + byte_length json + 1)
                    (ground (arith, go)) (ground (arith, go)) in
                rw go (omega (arith, rest.0), omega (arith, rest.1))
          ]

    -- past a limit, the loop stops at once
    envelope_loop_stops :
        (batch : List (Sealed Row Text)) (items bytes : ℕ)
        → (max_items < items) ⊎ (max_bytes < bytes)
        → envelope_loop byte_length max_items max_bytes batch true items bytes ≡ 0
    unfolding envelope_loop
    envelope_loop_stops [] items bytes over = refl
    envelope_loop_stops ((f, json) ∷ batch) items bytes over = ground (arith, over)

    -- the first so many frames, with so many rows and bytes before them, pass a limit
    abbrev Passes : ℕ → ℕ → List (Sealed Row Text) → Type 0
    Passes items bytes batch =
        (max_items < items + total_rows batch) ⊎ (max_bytes < bytes + total_bytes batch)

    Passes-cons :
        (f : Frame Row) (json : Text) (batch : List (Sealed Row Text)) (items bytes : ℕ)
        → Passes (items + row_count f) (bytes + byte_length json + 1) batch
        → Passes items bytes ((f, json) ∷ batch)
    Passes-cons f json batch items bytes (inl rows) = inl (omega (arith, rows))
    Passes-cons f json batch items bytes (inr over) = inr (omega (arith, over))

    -- the loop takes all frames, or one more would pass a limit
    envelope_loop_full :
        (batch : List (Sealed Row Text)) (items bytes : ℕ)
        → let n = envelope_loop byte_length max_items max_bytes batch true items bytes in
          (n ≡ length batch) ⊎ Passes items bytes (take (suc n) batch)
    unfolding envelope_loop
    envelope_loop_full [] items bytes = inl refl
    envelope_loop_full ((f, json) ∷ batch) items bytes =
        elim (Bool-cases (ltb max_items (items + row_count f))) [
          | inl rows ↦ rw rows (inr (inl (ground (arith, rows))))
          | inr few ↦ elim (Bool-cases (ltb max_bytes (bytes + byte_length json + 1))) [
            | inl over ↦ rw (few, over) (inr (inr (ground (arith, over))))
            | inr fits ↦
                rw (few, fits)
                  (elim (envelope_loop_full batch (items + row_count f)
                    (bytes + byte_length json + 1)) [
                      | inl all ↦ inl (ap suc all)
                      | inr more ↦ inr (Passes-cons f json _ items bytes more)
                    ])
          ]
        ]

    envelope_end_full :
        (f : Frame Row) (json : Text) (batch : List (Sealed Row Text)) (base_bytes : ℕ)
        → let waiting = (f, json) ∷ batch in
          let n = envelope_end byte_length max_items max_bytes waiting base_bytes in
          (n ≡ length waiting)
          ⊎ ((max_items < total_rows (take (suc n) waiting))
              ⊎ (max_bytes + 1 < base_bytes + total_bytes (take (suc n) waiting)))
    unfolding envelope_end envelope_loop
    envelope_end_full f json batch base_bytes =
        elim (envelope_loop_full batch (0 + row_count f) (base_bytes + byte_length json + 0)) [
          | inl all ↦ inl (ap suc all)
          | inr (inl rows) ↦ inr (inl (omega (arith, rows)))
          | inr (inr over) ↦ inr (inr (omega (arith, over)))
        ]

    -- An envelope takes at least one of the waiting frames. Either it takes just one, or the rows of
    -- those that it takes keep the limit of items, and their texts, with the commas between them and
    -- the bytes of the rest of the envelope, keep the limit of bytes. And either it takes all that
    -- wait, or with the next frame as well one of the two limits would be passed.
    pub envelope_end_bounds :
        (f : Frame Row) (json : Text) (batch : List (Sealed Row Text)) (base_bytes : ℕ)
        → let waiting = (f, json) ∷ batch in
          let n = envelope_end byte_length max_items max_bytes waiting base_bytes in
          (1 ≤ n)
          × ((n ≡ 1)
              ⊎ ((total_rows (take n waiting) ≤ max_items)
                  × (base_bytes + total_bytes (take n waiting) ≤ max_bytes + 1)))
          × ((n ≡ length waiting)
              ⊎ ((max_items < total_rows (take (suc n) waiting))
                  ⊎ (max_bytes + 1 < base_bytes + total_bytes (take (suc n) waiting))))
    unfolding envelope_end envelope_loop
    envelope_end_bounds f json batch base_bytes =
        let full = envelope_end_full f json batch base_bytes in
        elim (Bool-cases
          (leb (row_count f) max_items && leb (base_bytes + byte_length json) max_bytes)) [
            | inl fits ↦
                let rest =
                  envelope_loop_fits batch (0 + row_count f) (base_bytes + byte_length json + 0)
                    (ground (arith, fits)) (ground (arith, fits)) in
                (omega arith, inr (omega (arith, rest.0), omega (arith, rest.1)), full)
            | inr over ↦
                let stop =
                  envelope_loop_stops batch (0 + row_count f) (base_bytes + byte_length json + 0)
                    (ground (arith, over)) in
                (omega arith, inl (ap suc stop), full)
          ]
