-- ===== src/Core/Delivery/Pending.antt =====
-- The frames that wait: the newest ones, in order, as many as the capacity allows.
use mathlib.Core.Path.{ap₂}
use wardx.Prelude.{
  ltb, eqb, if◌then◌else◌, tests, Bool-cases, length, drop, length-append, length-drop, drop-append,
  drop-min, ok, ℕ, ◌+◌, ◌-◌, ◌≤◌, min, ◌≡◌, refl, sym, ap, ◌∙◌, inl, inr, true, List, ◌∷◌, ◌++◌,
  arith,
}
use wardx.Core.Frame.{Frame}
use wardx.Core.Delivery.{Sealed, Delivery, last_seq, accept, accept_frame_batch}

module _ {Row Text : Type 0} where
  -- What a batch leaves behind.
  pub record Accepted (capacity dropped_events : ℕ) (batch : List (Sealed Row Text))
      (d d' : Delivery Row Text) : Type 0 where
    pub newest :
        d'.pending_frames
        ≡ drop (length (d.pending_frames ++ batch) - capacity) (d.pending_frames ++ batch)
    pub within : length d'.pending_frames ≤ capacity
    -- each frame waits, or is counted as lost
    pub counted :
        length d'.pending_frames + d'.delivery_losses
        ≡ length d.pending_frames + length batch + d.delivery_losses + dropped_events
    pub failed :
        length d'.pending_frames + d'.frames_failed
        ≡ length d.pending_frames + length batch + d.frames_failed

  kept_part :
      (n : ℕ) (xs : List (Sealed Row Text))
      → (if ltb 0 n then drop (min n (length xs)) xs else xs) ≡ drop n xs
  kept_part n xs = elim (Bool-cases (ltb 0 n)) [
    | inl some_over ↦ rw some_over (drop-min n xs)
    | inr none_over ↦ rw none_over (ap (λ m. drop m xs) {x = 0} {y = n} (omega (tests, none_over)))
  ]

  accept-newest :
      (capacity dropped_events seq : ℕ) (batch : List (Sealed Row Text)) (d : Delivery Row Text)
      → length d.pending_frames ≤ capacity
      → (accept capacity dropped_events seq batch d).pending_frames
        ≡ drop (length (d.pending_frames ++ batch) - capacity) (d.pending_frames ++ batch)
  unfolding accept
  accept-newest capacity dropped_events seq batch d within =
      let waiting = d.pending_frames in
      let n = length waiting + length batch - capacity in
      ap₂ ◌++◌ (kept_part n waiting) (
        ap (λ m. drop m batch) {x = length batch - capacity} {y = n - length waiting} (omega arith))
      ∙ sym (drop-append n waiting batch)
      ∙ ap (λ m. drop (m - capacity) (waiting ++ batch)) (sym (length-append waiting batch))

  accept-Accepted :
      (capacity dropped_events seq : ℕ) (batch : List (Sealed Row Text)) (d : Delivery Row Text)
      → length d.pending_frames ≤ capacity
      → Accepted capacity dropped_events batch d (accept capacity dropped_events seq batch d)
  accept-Accepted capacity dropped_events seq batch d within = record {
    newest = newest;
    within = omega (arith, size);
    counted = unfold accept in ground (arith, size);
    failed = unfold accept in ground (arith, size);
  }
    where
      newest :
          (accept capacity dropped_events seq batch d).pending_frames
          ≡ drop (length (d.pending_frames ++ batch) - capacity) (d.pending_frames ++ batch)
      newest = accept-newest capacity dropped_events seq batch d within

      size :
          length (accept capacity dropped_events seq batch d).pending_frames
          ≡ length d.pending_frames
            + length batch
            - (length d.pending_frames + length batch - capacity)
      size = omega (
        arith,
        ap (λ (fs : List (Sealed Row Text)). length fs) newest,
        length-drop {0} (length (d.pending_frames ++ batch) - capacity) (d.pending_frames ++ batch),
        length-append {0} d.pending_frames batch,
      )

  -- With at most `capacity` frames waiting, a batch whose first number is the next one is accepted.
  -- Then the newest frames wait, in order, as many as the capacity allows; every other frame is
  -- counted as failed and, with the dropped events, as a loss; and the number is that of the last
  -- frame of the batch.
  pub accept_frame_batch-Accepted :
      (capacity dropped_events : ℕ) (f : Frame Row) (json : Text) (batch : List (Sealed Row Text))
      (d : Delivery Row Text)
      → length d.pending_frames ≤ capacity
      → f.seq ≡ d.seq + 1
      → (d' : Delivery Row Text) × (accept_frame_batch capacity dropped_events ((f, json) ∷ batch) d
          ≡ ok d')
        × Accepted capacity dropped_events ((f, json) ∷ batch) d d'
        × (d'.seq ≡ last_seq f batch)
  unfolding accept_frame_batch
  accept_frame_batch-Accepted capacity dropped_events f json batch d within next = (
    accept capacity dropped_events (last_seq f batch) ((f, json) ∷ batch) d,
    rw (eqb_of_eq f.seq (d.seq + 1) next),
    accept-Accepted capacity dropped_events (last_seq f batch) ((f, json) ∷ batch) d within,
    unfold accept in refl,
  )
    where
      eqb_of_eq : (a b : ℕ) → a ≡ b → eqb a b ≡ true
      eqb_of_eq a b e = ground arith
