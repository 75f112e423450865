-- ===== src/Message/V4/Safe.antt =====
-- Message::Read4 on any bytes.
use robotraconteur_pyodide.Prelude.{ℕ, ◌+◌, ◌<◌, length}
use robotraconteur_pyodide.Io.Reader.{ArrayBinaryReader}
use robotraconteur_pyodide.Io.Safe.{IsSound}
use robotraconteur_pyodide.Message.V2.Safe.{EndsOr, framed-Ends}
use robotraconteur_pyodide.Message.V4.Read.{MaxSizes, read_header4, read_entries4, read_message4}
use robotraconteur_pyodide.Message.V4.Readers.{
  IsOversized, IsOversized-IsBounded, Behaves-read_header4, Behaves-read_entries4,
}

-- On any bytes, by a reader whose place and limits are in a buffer of fewer than 2 ^ 31 bytes, Read4 of a
-- message needs no more fuel than one more than the bytes left, and never takes a limit that is not
-- there: it throws, or gives a message and ends in the buffer, no further back, with one limit more. It
-- reads outside the buffer at most where a string or a vector may have 2 ^ 31 bytes or more.
pub read_message4-Ends :
    (c : MaxSizes) (fuel : ℕ) (r : ArrayBinaryReader)
    → IsSound r
    → length r.buffer < r.position + fuel
    → EndsOr (IsOversized c) r (read_message4 c fuel r)
unfolding read_message4
read_message4-Ends c fuel r v room =
    let small = IsOversized-IsBounded c in
    framed-Ends (IsOversized c) fuel (read_header4 c) (read_entries4 c fuel) r
      (Behaves-read_header4 c small fuel) (Behaves-read_entries4 c small fuel) v room
