-- ===== src/Protocol/Frame.antt =====
-- internal/protocol/frame.go: length-prefixed frames over a byte stream.
--
-- A reader is the list of bytes that the peer will have sent before it closes, and a writer the
-- list of bytes written; a writer that fails does so after a number of bytes.
pub mod RoundTrip
pub mod Reading
mod Tests
use cloud_native_entry_task.Prelude.{
  ℕ, zero, suc, ◌+◌, ◌-◌, ◌*◌, ◌/◌, ◌%◌, ◌^◌, Bool, true, false, ◌&&◌, Option, none, some, List, [],
  ◌∷◌, ◌++◌, Bytes, length, take, drop, ltb, ◌==◌, if◌then◌else◌,
}

abbrev pub header_bytes : ℕ
header_bytes = 4

pub data FrameError : Type 0 where
  empty_frame frame_too_large eof unexpected_eof write_failed : FrameError

pub data FrameResult (A : Type 0) : Type 0 where
  ok : A → FrameResult A
  err : FrameError → FrameResult A

-- `io.ReadFull`: all of the buffer, or EOF on an empty stream, or ErrUnexpectedEOF.
unfoldable pub read_full : ℕ → Bytes → FrameResult (Bytes × Bytes)
read_full zero r = ok ([], r)
read_full (suc n) [] = err eof
read_full (suc n) (b ∷ r) =
    if ltb (length r) n then err unexpected_eof else ok (b ∷ take n r, drop n r)

-- `binary.BigEndian.Uint32` of the four header bytes.
unfoldable pub uint32 : Bytes → ℕ
uint32 (a ∷ b ∷ c ∷ d ∷ []) = ((a * 256 + b) * 256 + c) * 256 + d
uint32 _ = 0

-- `binary.BigEndian.PutUint32`.
unfoldable pub put_uint32 : ℕ → Bytes
put_uint32 n = n / 2 ^ 24 % 256 ∷ n / 2 ^ 16 % 256 ∷ n / 2 ^ 8 % 256 ∷ n % 256 ∷ []

-- The payload, and the bytes left on the stream.
read_payload : ℕ → ℕ → Bytes → FrameResult (Bytes × Bytes)
read_payload n max_bytes r =
    if n == 0
    then err empty_frame
    else if ltb 0 max_bytes && ltb max_bytes n
    then err frame_too_large
    else read_full n r

unfoldable pub read_frame : Bytes → ℕ → FrameResult (Bytes × Bytes)
unfolding read_payload read_full uint32
read_frame r max_bytes = elim (read_full header_bytes r) [
  | err e ↦ err e
  | ok (header, rest) ↦ read_payload (uint32 header) max_bytes rest
]

-- What was written before, and how many more bytes the connection takes before it fails.
pub record Writer : Type 0 where
  pub written : Bytes
  pub room : ℕ

-- `w.Write`: all bytes, or a short write and an error.
unfoldable pub write : Writer → Bytes → Bool × Writer
write w bs =
    if ltb w.room (length bs)
    then (false, record { written = w.written ++ take w.room bs; room = 0 })
    else (true, record { written = w.written ++ bs; room = w.room - length bs })

write_payload : Bytes → Bool × Writer → FrameResult (Unit {0}) × Writer
write_payload payload (false, w) = (err write_failed, w)
write_payload payload (true, w) =
    let (done, w') = write w payload in if done then (ok tt, w') else (err write_failed, w')

unfoldable pub write_frame : Writer → Bytes → ℕ → FrameResult (Unit {0}) × Writer
unfolding write_payload write put_uint32
write_frame w payload max_bytes =
    if length payload == 0
    then (err empty_frame, w)
    else if ltb 0 max_bytes && ltb max_bytes (length payload)
    then (err frame_too_large, w)
    else if ltb (2 ^ 32 - 1) (length payload)
    then (err frame_too_large, w)
    else write_payload payload (write w (put_uint32 (length payload % 2 ^ 32)))
