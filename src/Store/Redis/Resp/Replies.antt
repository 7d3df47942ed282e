-- ===== src/Store/Redis/Resp/Replies.antt =====
-- What a server says is read as it was meant.
use mathlib.Core.List.{append_assoc}
use cloud_native_entry_task.Prelude.{
  ℕ, ◌+◌, ◌^◌, ◌<◌, ◌≡◌, refl, ap, ◌∙◌, false, some, [], ◌∷◌, ◌++◌, Bytes, arith, length, ltb, ◌==◌,
  take-append_length, drop-append_add, is_empty, length-append, codes,
}
use cloud_native_entry_task.Prelude.Int.{pos}
use cloud_native_entry_task.GoLib.Errors.{redis_missing, Result, ok, err}
use cloud_native_entry_task.GoLib.Strings.{itoa}
use cloud_native_entry_task.GoLib.Strings.Decimal.{Digits, itoa-Digits, parse_int64-itoa}
use cloud_native_entry_task.GoLib.Strings.Splitting.{Lacks}
use cloud_native_entry_task.GoLib.Numbers.{parse_int64, parse_digits}
use cloud_native_entry_task.Store.Redis.Resp.{
  crlf, Reply, text, number, error_reply, until_newline, trim_cr, read_line, read_text, read_bulk,
  number_reply, reply_of, read_reply,
}

-- The replies of a server that the store asks for.
pub data ServerReply : Type 0 where
  simple error bulk : Bytes → ServerReply
  integer : ℕ → ServerReply
  nil : ServerReply

-- The protocol's form of a reply.
abbrev pub encode_reply : ServerReply → Bytes
encode_reply (simple line) = b'+' ∷ (line ++ crlf)
encode_reply (error line) = b'-' ∷ (line ++ crlf)
encode_reply (bulk v) = b'$' ∷ (itoa (length v) ++ (crlf ++ (v ++ crlf)))
encode_reply (integer n) = b':' ∷ (itoa n ++ crlf)
encode_reply nil = codes "$-1" ++ crlf

-- A line has no line break in it, and lengths and integers fit into 64 bits.
abbrev pub IsWellFormed : ServerReply → Type 0
IsWellFormed (simple line) = Lacks b'\n' line
IsWellFormed (error line) = Lacks b'\n' line
IsWellFormed (bulk v) = length v < 2 ^ 63
IsWellFormed (integer n) = n < 2 ^ 63
IsWellFormed nil = Unit

-- What the store makes of it.
abbrev pub outcome : ServerReply → Bytes → Result (Reply × Bytes)
outcome (simple line) rest = ok (text line, rest)
outcome (error line) rest = err error_reply
outcome (bulk v) rest = ok (text v, rest)
outcome (integer n) rest = ok (number (pos n), rest)
outcome nil rest = err redis_missing

until_newline-append :
    (line rest : Bytes)
    → Lacks b'\n' line
    → until_newline (line ++ b'\n' ∷ rest) ≡ some (line, rest)
unfolding until_newline
until_newline-append [] rest h = refl
until_newline-append (c ∷ line) rest h =
    let other : (c == b'\n') ≡ false = ground (arith, h.0) in
    rw (other, until_newline-append line rest h.1, until_newline) refl

trim_cr-append : (line : Bytes) → trim_cr (line ++ b'\r' ∷ []) ≡ line
unfolding trim_cr
trim_cr-append [] = refl
trim_cr-append (c ∷ []) = refl
trim_cr-append (c ∷ d ∷ line) = ap (◌∷◌ c) (trim_cr-append (d ∷ line))

Lacks-append_cr : (line : Bytes) → Lacks b'\n' line → Lacks b'\n' (line ++ b'\r' ∷ [])
Lacks-append_cr [] h = (omega arith, tt)
Lacks-append_cr (c ∷ line) h = (h.0, Lacks-append_cr line h.1)

read_line-append :
    (line rest : Bytes) → Lacks b'\n' line → read_line (line ++ (crlf ++ rest)) ≡ ok (line, rest)
read_line-append line rest h =
    let shape : line ++ (crlf ++ rest) ≡ (line ++ b'\r' ∷ []) ++ b'\n' ∷ rest = simp append_assoc in
    rw shape (
      unfold read_line in
      rw
        (
          until_newline-append (line ++ b'\r' ∷ []) rest (Lacks-append_cr line h),
          read_line,
          trim_cr-append line,
        )
        refl)

Digits-Lacks : (s : Bytes) → Digits s → Lacks b'\n' s
Digits-Lacks [] d = tt
Digits-Lacks (c ∷ s) d = (λ e. ground (arith, d.0), Digits-Lacks s d.1)

reply_lem :
    (prefix : ℕ) (line rest : Bytes)
    → Lacks b'\n' line
    → read_reply (prefix ∷ (line ++ (crlf ++ rest))) ≡ reply_of prefix line rest
unfolding read_reply
reply_lem prefix line rest h = rw (read_line-append line rest h, read_reply) refl

read_text-append : (v rest : Bytes) → read_text (length v) (v ++ (crlf ++ rest)) ≡ ok (text v, rest)
read_text-append v rest =
    let enough : ltb (length (v ++ (crlf ++ rest))) (length v + 2) ≡ false =
      ground (arith, length-append v (crlf ++ rest)) in
    rw (enough, take-append_length v (crlf ++ rest), drop-append_add v (crlf ++ rest) 2) refl

-- A reply whose line is a number.
reply_itoa :
    (prefix n : ℕ) (rest : Bytes)
    → read_reply (prefix ∷ (itoa n ++ (crlf ++ rest))) ≡ reply_of prefix (itoa n) rest
reply_itoa prefix n rest = reply_lem prefix (itoa n) rest (Digits-Lacks (itoa n) (itoa-Digits n))

-- Any reply of a server, before anything that follows, is read as what it means: a line or a text
-- as itself, an integer as a number, nil as a missing key, and an error as an error.
pub read_reply-encode_reply :
    (r : ServerReply) (rest : Bytes)
    → IsWellFormed r
    → read_reply (encode_reply r ++ rest) ≡ outcome r rest
unfolding reply_of
read_reply-encode_reply (simple line) rest h =
    rw (append_assoc line crlf rest) (reply_lem b'+' line rest h)
read_reply-encode_reply (error line) rest h =
    rw (append_assoc line crlf rest) (reply_lem b'-' line rest h)
read_reply-encode_reply (bulk v) rest h =
    let shape : encode_reply (bulk v) ++ rest
        ≡ b'$' ∷ (itoa (length v) ++ (crlf ++ (v ++ (crlf ++ rest)))) =
      simp append_assoc in
    rw shape (
      reply_itoa b'$' (length v) (v ++ (crlf ++ rest))
      ∙ (unfold read_bulk in
          rw (parse_int64-itoa (length v) h, read_bulk) (read_text-append v rest)))
read_reply-encode_reply (integer n) rest h =
    rw (append_assoc (itoa n) crlf rest) (
      reply_itoa b':' n rest
      ∙ (unfold number_reply in rw (parse_int64-itoa n h, number_reply) refl))
read_reply-encode_reply nil rest h =
    reply_lem b'$' (codes "-1") rest (omega arith)
    ∙ (unfold read_bulk parse_int64 parse_digits is_empty in refl)
