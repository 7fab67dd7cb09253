-- ===== src/Core/Delivery/Tests.antt =====
-- Delivery with a capacity of two frames; a frame's text is its number of bytes.
use wardx.Prelude.{
  length, take, ok, err, ℕ, suc, ◌+◌, ◌≤◌, ◌<◌, ◌≡◌, refl, ◌⊎◌, none, List, [], ◌∷◌, arith,
}
use wardx.Core.Frame.{Frame, row_count}
use wardx.Core.Delivery.{
  Sealed, Delivery, last_seq, accept, accept_frame_batch, envelope_loop, envelope_end,
}
use wardx.Core.Delivery.Pending.{Accepted, accept_frame_batch-Accepted}
use wardx.Core.Delivery.Envelope.{total_rows, total_bytes, envelope_end_bounds}

abbrev numbered : ℕ → Frame ℕ
numbered n = record {
  seq = n;
  from = 0;
  to = 1;
  metrics = record { counters = 7 ∷ []; gauges = []; histograms = []; distincts = none };
  events = [];
  logs = [];
}

abbrev waiting : Delivery ℕ ℕ
waiting = record {
  seq = 4;
  pending_frames = (numbered 4, 400) ∷ [];
  frames_sent = 3;
  frames_failed = 0;
  delivery_losses = 0;
  last_sync_ms = 9;
}

abbrev batch : List (Sealed ℕ ℕ)
batch = (numbered 6, 300) ∷ []

-- frame 4 is lost
accept_two :
    accept_frame_batch 2 1 ((numbered 5, 500) ∷ batch) waiting
    ≡ ok (record waiting {
      seq = 6;
      pending_frames = (numbered 5, 500) ∷ (numbered 6, 300) ∷ [];
      frames_failed = 1;
      delivery_losses = 2;
    })
unfolding accept_frame_batch accept last_seq
accept_two = refl

accept_gap : accept_frame_batch 2 0 batch waiting ≡ err "snapshots must be completed in sequence"
unfolding accept_frame_batch
accept_gap = refl

take_one : envelope_end (λ n. n) 100 900 ((numbered 5, 500) ∷ batch) 150 ≡ 1
unfolding envelope_end envelope_loop row_count
take_one = refl

accept_frame_batch-Accepted_example :
    (d' : Delivery ℕ ℕ) × (accept_frame_batch 2 1 ((numbered 5, 500) ∷ batch) waiting ≡ ok d')
    × Accepted 2 1 ((numbered 5, 500) ∷ batch) waiting d'
    × (d'.seq ≡ last_seq (numbered 5) batch)
accept_frame_batch-Accepted_example =
    accept_frame_batch-Accepted 2 1 (numbered 5) 500 batch waiting (omega arith) refl

envelope_end_bounds_example :
    let waiting = (numbered 5, 500) ∷ batch in
    let n = envelope_end (λ (t : ℕ). t) 100 900 waiting 50 in
    (1 ≤ n)
    × ((n ≡ 1)
        ⊎ ((total_rows (λ (t : ℕ). t) (take n waiting) ≤ 100)
            × (50 + total_bytes (λ (t : ℕ). t) (take n waiting) ≤ 901)))
    × ((n ≡ length waiting)
        ⊎ ((100 < total_rows (λ (t : ℕ). t) (take (suc n) waiting))
            ⊎ (901 < 50 + total_bytes (λ (t : ℕ). t) (take (suc n) waiting))))
envelope_end_bounds_example = envelope_end_bounds (λ n. n) 100 900 (numbered 5) 500 batch 50
