-- ===== src/Protocol/Frame/Tests.antt =====
-- Runs of the frame codec, as in internal/protocol/frame_test.go.
use cloud_native_entry_task.Prelude.{
  ◌⊎◌, ◌==◌, if◌then◌else◌, ◌≡◌, ◌-◌, refl, inr, [], ◌∷◌, ◌++◌, Bytes, length, codes, arith,
}
use cloud_native_entry_task.Protocol.Frame.{
  ok, err, empty_frame, frame_too_large, Writer, read_frame, write_frame, put_uint32,
}
use cloud_native_entry_task.Protocol.Frame.RoundTrip.{
  frame, IsAcceptable, write_frame_cases, read_frame-frame,
}
use cloud_native_entry_task.Protocol.Frame.Reading.{read_frame_sound}

abbrev request : Bytes
request = codes "{\"op\":\"Login\"}"

abbrev buffer : Writer
buffer = record { written = []; room = 4096 }

request-IsAcceptable : IsAcceptable 1024 request
request-IsAcceptable = record {
  nonempty = omega arith;
  fits = omega arith;
  limited = inr (omega arith);
}

read_two : read_frame (0 ∷ 0 ∷ 0 ∷ 2 ∷ 7 ∷ 8 ∷ 9 ∷ []) 16 ≡ ok (7 ∷ 8 ∷ [], 9 ∷ [])
unfolding read_frame
read_two = refl

too_large : (write_frame buffer (codes "abcd") 3).0 ≡ err frame_too_large
unfolding write_frame
too_large = refl

write_frame_cases_example :
    (IsAcceptable 1024 request
      × (write_frame buffer request 1024 ≡ (
        ok tt,
        record { written = [] ++ frame request; room = 4096 - length (frame request) },
      )))
    ⊎ ((¬ IsAcceptable 1024 request)
        × (write_frame buffer request 1024
            ≡ (err (if length request == 0 then empty_frame else frame_too_large), buffer)))
write_frame_cases_example =
    write_frame_cases buffer request 1024 (unfold frame put_uint32 in omega arith)

read_frame-frame_example :
    read_frame (frame request ++ codes "next") 1024 ≡ ok (request, codes "next")
read_frame-frame_example = read_frame-frame request (codes "next") 1024 request-IsAcceptable

read_frame_sound_example :
    (0 ∷ 0 ∷ 0 ∷ 2 ∷ 7 ∷ 8 ∷ 9 ∷ [] ≡ frame (7 ∷ 8 ∷ []) ++ 9 ∷ []) × IsAcceptable 16 (7 ∷ 8 ∷ [])
read_frame_sound_example =
    read_frame_sound (0 ∷ 0 ∷ 0 ∷ 2 ∷ 7 ∷ 8 ∷ 9 ∷ []) (7 ∷ 8 ∷ []) (9 ∷ []) 16 (omega arith)
      read_two
