-- ===== src/Core/Delivery.antt =====
-- The delivery side of packages/core/src/WardxCore.js: frames that wait to be sent, the losses that
-- are counted, and how many frames go into one envelope. A waiting frame stands beside its text, which
-- the class keeps in the map `_frameJsons`.
pub mod Pending
pub mod Envelope
mod Tests
use wardx.Prelude.{
  ltb, eqb, if◌then◌else◌, length, drop, Result, ok, err, ◌>>=◌, ◌>>◌, guard, ℕ, suc, ◌+◌, ◌-◌, min,
  max, Bool, true, false, ◌&&◌, ◌||◌, List, [], ◌∷◌, ◌++◌,
}
use wardx.Core.Frame.{Frame, row_count}

module _ (Row Text : Type 0) where
  abbrev pub Sealed : Type 0
  Sealed = Frame Row × Text

  -- The fields that delivery reads and writes.
  pub record Delivery : Type 0 where
    pub seq : ℕ
    pub pending_frames : List Sealed
    pub frames_sent : ℕ
    pub frames_failed : ℕ
    pub delivery_losses : ℕ
    pub last_sync_ms : ℕ

module _ {Row Text : Type 0} where
  -- `batch.frames.at(-1).seq`, for a batch that begins with `f`.
  pub last_seq : Frame Row → List (Sealed Row Text) → ℕ
  last_seq f [] = f.seq
  last_seq f ((g, json) ∷ batch) = last_seq g batch

  -- What `_acceptFrameBatch` does once the sequence is right.
  pub accept : ℕ → ℕ → ℕ → List (Sealed Row Text) → Delivery Row Text → Delivery Row Text
  accept capacity dropped_events seq batch d =
      let overflow = length d.pending_frames + length batch - capacity in
      record d {
        seq = seq;
        pending_frames =
            (if ltb 0 overflow
              then drop (min overflow (length d.pending_frames)) d.pending_frames
              else d.pending_frames)
            ++ drop (length batch - capacity) batch;
        frames_failed = if ltb 0 overflow then d.frames_failed + overflow else d.frames_failed;
        delivery_losses =
            (if ltb 0 overflow then d.delivery_losses + overflow else d.delivery_losses)
            + dropped_events;
      }

  -- `_acceptFrameBatch`, less what it tells the tracer. The splitter returns no empty batch; the
  -- message is that of the read `batch.frames[0].seq` on one.
  pub accept_frame_batch :
      ℕ → ℕ → List (Sealed Row Text) → Delivery Row Text → Result (Delivery Row Text)
  accept_frame_batch capacity dropped_events [] d =
      err "Cannot read properties of undefined (reading 'seq')"
  accept_frame_batch capacity dropped_events ((f, json) ∷ batch) d = do
    guard (eqb f.seq (d.seq + 1)) "snapshots must be completed in sequence"
    ok (accept capacity dropped_events (last_seq f batch) ((f, json) ∷ batch) d)

  -- `_takePendingBatch`
  pub take_pending_batch : Delivery Row Text → List (Sealed Row Text) × Delivery Row Text
  take_pending_batch d = (d.pending_frames, record d { pending_frames = [] })

  -- `recordSyncResult`; `Math.max(frames, 1)`.
  pub record_sync_result : Bool → ℕ → ℕ → Delivery Row Text → Delivery Row Text
  record_sync_result true frames ms d = record d {
    last_sync_ms = ms;
    frames_sent = d.frames_sent + frames;
  }
  record_sync_result false frames ms d = record d {
    last_sync_ms = ms;
    frames_failed = d.frames_failed + max frames 1;
    delivery_losses = d.delivery_losses + frames;
  }

  pub record_sync_error : Delivery Row Text → Delivery Row Text
  record_sync_error d = record d {
    frames_failed = d.frames_failed + 1;
    delivery_losses = d.delivery_losses + 1;
  }

  -- The loop of `_envelopeEnd` from `end` on; `started` is `end > start`. The result counts the
  -- frames that it passes.
  pub envelope_loop : (Text → ℕ) → ℕ → ℕ → List (Sealed Row Text) → Bool → ℕ → ℕ → ℕ
  envelope_loop byte_length max_items max_bytes [] started items bytes = 0
  envelope_loop byte_length max_items max_bytes ((f, json) ∷ batch) started items bytes =
      let next_items = items + row_count f in
      let next_bytes = bytes + byte_length json + (if started then 1 else 0) in
      let rest = envelope_loop byte_length max_items max_bytes batch true next_items next_bytes in
      if started && (ltb max_items next_items || ltb max_bytes next_bytes) then 0 else suc rest

  -- `_envelopeEnd(batch, start, baseBytes) - start`, on the frames from `start` on.
  pub envelope_end : (Text → ℕ) → ℕ → ℕ → List (Sealed Row Text) → ℕ → ℕ
  envelope_end byte_length max_items max_bytes batch base_bytes =
      envelope_loop byte_length max_items max_bytes batch false 0 base_bytes
