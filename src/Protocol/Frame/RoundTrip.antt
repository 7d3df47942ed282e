-- ===== src/Protocol/Frame/RoundTrip.antt =====
-- What is written is what is read.
use mathlib.Core.List.{append_assoc}
use cloud_native_entry_task.Prelude.{
  ℕ, ◌+◌, ◌-◌, ◌%◌, ◌^◌, ◌≤◌, ◌<◌, ◌≡◌, refl, ◌⊎◌, true, [], ◌∷◌, ◌++◌, Bytes, length,
  take-append_length, drop-append_length, length-append, arith, ◌==◌, if◌then◌else◌, Bool-cases,
  inl, inr, ltb, leb, ◌&&◌, ◌||◌,
}
use cloud_native_entry_task.Protocol.Frame.{
  ok, err, frame_too_large, empty_frame, Writer, write, write_payload, read_full, uint32,
  put_uint32, read_frame, write_frame,
}

pub read_full-append :
    (n : ℕ) (xs ys : Bytes) → length xs ≡ n → read_full n (xs ++ ys) ≡ ok (xs, ys)
unfolding read_full
read_full-append n [] ys e = rw (← e)
read_full-append n (x ∷ xs) ys e =
    rw (← e)
      (ground (arith, length-append xs ys, take-append_length xs ys, drop-append_length xs ys))

pub uint32-put_uint32 : (n : ℕ) → n < 2 ^ 32 → uint32 (put_uint32 n) ≡ n
unfolding uint32 put_uint32
uint32-put_uint32 n h = omega arith

-- The bytes of a payload's frame.
unfoldable pub frame : Bytes → Bytes
frame payload = put_uint32 (length payload) ++ payload

-- What both ends accept under a limit, where 0 stands for no limit.
pub record IsAcceptable (max_bytes : ℕ) (payload : Bytes) : Type 0 where
  pub nonempty : 0 < length payload
  pub fits : length payload < 2 ^ 32
  pub limited : (max_bytes ≡ 0) ⊎ (length payload ≤ max_bytes)

length-put_uint32 : (n : ℕ) → length (put_uint32 n) ≡ 4
unfolding put_uint32
length-put_uint32 n = refl

pub length-frame : (payload : Bytes) → length (frame payload) ≡ 4 + length payload
unfolding frame
length-frame payload =
    omega (
      arith,
      length-append (put_uint32 (length payload)) payload,
      length-put_uint32 (length payload),
    )

write_fits :
    (w : Writer) (bs : Bytes)
    → length bs ≤ w.room
    → write w bs ≡ (true, record { written = w.written ++ bs; room = w.room - length bs })
unfolding write
write_fits w bs h = ground arith

-- Two writes that fit are one write of both.
write_payload-write :
    (w : Writer) (header payload : Bytes)
    → length header + length payload ≤ w.room
    → write_payload payload (write w header) ≡ (
      ok tt,
      record {
        written = w.written ++ (header ++ payload);
        room = w.room - length (header ++ payload);
      },
    )
unfolding write_payload
write_payload-write w header payload h =
    rw (write_fits w header (omega arith), write_payload, write_fits after payload (omega arith))
      (cc (append_assoc w.written header payload, rooms))
  where
    after : Writer
    after = record { written = w.written ++ header; room = w.room - length header }

    rooms : w.room - length header - length payload ≡ w.room - length (header ++ payload)
    rooms = omega (arith, length-append header payload)

module _ (w : Writer) (payload : Bytes) (max_bytes : ℕ) where
  -- A payload that passes the tests is written as its header and then itself.
  accepted :
      IsAcceptable max_bytes payload
      → write_frame w payload max_bytes
        ≡ write_payload payload (write w (put_uint32 (length payload)))
  unfolding write_frame
  accepted a = ground (arith, same_mod)
    where
      same_mod : length payload % 2 ^ 32 ≡ length payload
      same_mod = omega (arith, a.fits)

  -- Any other payload is refused, and nothing is written.
  pub write_frame-refused :
      ¬ IsAcceptable max_bytes payload
      → write_frame w payload max_bytes
        ≡ (err (if length payload == 0 then empty_frame else frame_too_large), w)
  unfolding write_frame
  write_frame-refused h = ground (arith, refuted)
    where
      refuted :
          0 < length payload
          → length payload < 2 ^ 32
          → (max_bytes ≡ 0) ⊎ (length payload ≤ max_bytes)
          → ⊥
      refuted p q r = h (record { nonempty = p; fits = q; limited = r })

  -- A payload within the limit is written as its frame, if the connection takes that many bytes.
  pub write_frame-frame :
      IsAcceptable max_bytes payload
      → length (frame payload) ≤ w.room
      → write_frame w payload max_bytes ≡ (
        ok tt,
        record { written = w.written ++ frame payload; room = w.room - length (frame payload) },
      )
  write_frame-frame a r = rw (accepted a) (
      unfold frame in
      write_payload-write w (put_uint32 (length payload)) payload
        (omega (arith, length-frame payload, length-put_uint32 (length payload))))

  IsAcceptable-or_not : IsAcceptable max_bytes payload ⊎ (¬ IsAcceptable max_bytes payload)
  IsAcceptable-or_not =
      elim (Bool-cases (
        ltb 0 (length payload)
        && ltb (length payload) (2 ^ 32)
        && ((max_bytes == 0) || leb (length payload) max_bytes))) [
          | inl good ↦ inl (record {
            nonempty = ground (arith, good);
            fits = ground (arith, good);
            limited = ground (arith, good);
          })
          | inr bad ↦ inr (λ a. ground (arith, bad, a.nonempty, a.fits, a.limited))
        ]

  -- On a connection that takes that many bytes, a payload is written as its frame if it is not empty,
  -- its length fits in 32 bits and it is within the limit, if there is one; any other payload is
  -- refused, and nothing is written.
  pub write_frame_cases :
      length (frame payload) ≤ w.room
      → (IsAcceptable max_bytes payload
          × (write_frame w payload max_bytes ≡ (
            ok tt,
            record { written = w.written ++ frame payload; room = w.room - length (frame payload) },
          )))
        ⊎ ((¬ IsAcceptable max_bytes payload)
            × (write_frame w payload max_bytes
                ≡ (err (if length payload == 0 then empty_frame else frame_too_large), w)))
  write_frame_cases r = elim IsAcceptable-or_not [
    | inl a ↦ inl (a, write_frame-frame a r)
    | inr n ↦ inr (n, write_frame-refused n)
  ]

-- A reader that is sent a frame, and anything after it, returns the payload and leaves the rest.
pub read_frame-frame :
    (payload rest : Bytes) (max_bytes : ℕ)
    → IsAcceptable max_bytes payload
    → read_frame (frame payload ++ rest) max_bytes ≡ ok (payload, rest)
unfolding frame
read_frame-frame payload rest max_bytes a = rw append_assoc (
    unfold read_frame in
    rw
      (
        read_full-append 4 (put_uint32 (length payload)) (payload ++ rest)
            (length-put_uint32 (length payload)),
        read_frame,
        uint32-put_uint32 (length payload) a.fits,
      )
      (ground (arith, read_full-append (length payload) payload rest refl)))
