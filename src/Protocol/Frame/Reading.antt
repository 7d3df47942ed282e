-- ===== src/Protocol/Frame/Reading.antt =====
-- Whatever a reader accepts is the frame of an acceptable payload: nothing else is.
use mathlib.Core.List.{append_assoc}
use cloud_native_entry_task.Prelude.{
  ℕ, zero, suc, ◌^◌, ◌≤◌, ◌<◌, ◌≡◌, refl, ◌⊎◌, [], ◌∷◌, ◌++◌, Bytes, AreBytes, length,
  take-append-drop, length-take, arith, ap, sym, ◌∙◌,
}
use cloud_native_entry_task.Protocol.Frame.{
  ok, read_full, uint32, put_uint32, read_payload, read_frame,
}
use cloud_native_entry_task.Protocol.Frame.RoundTrip.{frame, IsAcceptable}

read_full_sound :
    (n : ℕ) (r xs ys : Bytes) → read_full n r ≡ ok (xs, ys) → (r ≡ xs ++ ys) × (length xs ≡ n)
unfolding read_full
read_full_sound zero r xs ys h = ground arith
read_full_sound (suc n) [] xs ys h = ground arith
read_full_sound (suc n) (b ∷ r) xs ys h = ground (arith, take-append-drop n r, length-take n r)

put_uint32-uint32 :
    (header : Bytes) → AreBytes header → length header ≡ 4 → put_uint32 (uint32 header) ≡ header
unfolding put_uint32 uint32
put_uint32-uint32 (a ∷ b ∷ c ∷ d ∷ []) h e = ground arith
put_uint32-uint32 header h e = ground arith

read_payload_sound :
    (n max_bytes : ℕ) (r payload rest : Bytes)
    → read_payload n max_bytes r ≡ ok (payload, rest)
    → (0 < n) × ((max_bytes ≡ 0) ⊎ (n ≤ max_bytes)) × (read_full n r ≡ ok (payload, rest))
unfolding read_payload
read_payload_sound n max_bytes r payload rest h = ground arith

read_frame-header :
    (a b c d max_bytes : ℕ) (r : Bytes)
    → read_frame (a ∷ b ∷ c ∷ d ∷ r) max_bytes
      ≡ read_payload (uint32 (a ∷ b ∷ c ∷ d ∷ [])) max_bytes r
unfolding read_frame
read_frame-header a b c d max_bytes r = ground arith

uint32-lt : (header : Bytes) → AreBytes header → uint32 header < 2 ^ 32
unfolding uint32
uint32-lt (a ∷ b ∷ c ∷ d ∷ []) h = omega arith
uint32-lt header h = omega arith

-- Whatever a reader accepts is the frame of an acceptable payload, and what it leaves is what
-- followed that frame on the stream.
pub read_frame_sound :
    (r payload rest : Bytes) (max_bytes : ℕ)
    → AreBytes r
    → read_frame r max_bytes ≡ ok (payload, rest)
    → (r ≡ frame payload ++ rest) × IsAcceptable max_bytes payload
unfolding frame
read_frame_sound (a ∷ b ∷ c ∷ d ∷ r) payload rest max_bytes (ha, (hb, (hc, (hd, h)))) e =
    let header : Bytes = a ∷ b ∷ c ∷ d ∷ [] in
    let (pos, limit, full) =
      read_payload_sound (uint32 header) max_bytes r payload rest
        (sym (read_frame-header a b c d max_bytes r) ∙ e) in
    let (split, size) = read_full_sound (uint32 header) r payload rest full in
    (
      rw (append_assoc, size, put_uint32-uint32 header (ha, (hb, (hc, (hd, tt)))) refl)
          (ap (λ (t : Bytes). a ∷ b ∷ c ∷ d ∷ t) split),
      record {
        nonempty = rw size pos;
        fits = rw size (uint32-lt header (ha, (hb, (hc, (hd, tt)))));
        limited = rw size limit;
      },
    )
read_frame_sound (a ∷ b ∷ c ∷ []) payload rest max_bytes h e = unfold read_frame in ground arith
read_frame_sound (a ∷ b ∷ []) payload rest max_bytes h e = unfold read_frame in ground arith
read_frame_sound (a ∷ []) payload rest max_bytes h e = unfold read_frame in ground arith
read_frame_sound [] payload rest max_bytes h e = unfold read_frame in ground arith
