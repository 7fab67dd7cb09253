-- ===== src/Server/History/Bytes/Tests.antt =====
-- Two rows of one event.
use wardx.Prelude.{ok, ◌≡◌, refl}
use wardx.Prelude.Sample.{sample_js}
use wardx.Server.History.Series.{merge_row, merge_historical_row}
use wardx.Server.History.Sample.{sample_buffer, visit}
use wardx.Server.History.Bytes.{row_bytes, merged_row_bytes, merged_row_bytes-row_bytes}

merged : merge_historical_row sample_js sample_buffer (visit 3) (visit 4) ≡ ok (visit 7)
unfolding merge_historical_row merge_row
merged = refl

merged_row_bytes-row_bytes_example :
    merged_row_bytes sample_js (row_bytes sample_js (visit 3)) (visit 3) (visit 7)
    ≡ row_bytes sample_js (visit 7)
merged_row_bytes-row_bytes_example =
    merged_row_bytes-row_bytes sample_js sample_buffer (visit 3) (visit 4) (visit 7) merged refl
      refl
