-- ===== src/Store/Redis/Resp.antt =====
-- internal/store/redisstore/session.go: `writeCommand`, `readReply` and `readLine`, over bytes.
pub mod Commands
pub mod Replies
use cloud_native_entry_task.Prelude.{
  ℕ, zero, suc, ◌+◌, ◌-◌, Bool, true, false, Option, none, some, List, [], ◌∷◌, ◌++◌, Bytes, length,
  take, drop, codes, ltb, ◌==◌, if◌then◌else◌,
}
use cloud_native_entry_task.Prelude.Int.{ℤ, pos, negsuc}
use cloud_native_entry_task.GoLib.Errors.{Error, external, redis_missing, Result, ok, err}
use cloud_native_entry_task.GoLib.Strings.{itoa}
use cloud_native_entry_task.GoLib.Numbers.{parse_int64}

abbrev pub crlf : Bytes
crlf = b'\r' ∷ b'\n' ∷ []

-- What `writeCommand` writes, one text for each call of `Fprintf`.
abbrev pub argument_chunk : Bytes → Bytes
argument_chunk arg = b'$' ∷ (itoa (length arg) ++ (crlf ++ (arg ++ crlf)))

abbrev pub argument_chunks : List Bytes → List Bytes
argument_chunks [] = []
argument_chunks (arg ∷ args) = argument_chunk arg ∷ argument_chunks args

abbrev pub command_chunks : List Bytes → List Bytes
command_chunks args = (b'*' ∷ (itoa (length args) ++ crlf)) ∷ argument_chunks args

-- A reply is a text or an integer.
pub data Reply : Type 0 where
  text : Bytes → Reply
  number : ℤ → Reply

-- End of the stream; a reply that says an error; a number that does not parse; a slice bound out of
-- range, which is a panic; a prefix that is not known.
abbrev pub eof : Error
eof = external 10

abbrev pub error_reply : Error
error_reply = external 11

abbrev pub bad_number : Error
bad_number = external 12

abbrev pub out_of_range : Error
out_of_range = external 13

abbrev pub unknown_prefix : Error
unknown_prefix = external 14

-- `ReadString('\n')` without the line break: `none` where there is none.
unfoldable pub until_newline : Bytes → Option (Bytes × Bytes)
until_newline [] = none
until_newline (c ∷ r) =
    if c == b'\n'
    then some ([], r)
    else elim (until_newline r) [ none ↦ none | some (line, rest) ↦ some (c ∷ line, rest) ]

-- `TrimSuffix(line, "\r")`
unfoldable pub trim_cr : Bytes → Bytes
trim_cr [] = []
trim_cr (c ∷ []) = if c == b'\r' then [] else c ∷ []
trim_cr (c ∷ d ∷ s) = c ∷ trim_cr (d ∷ s)

unfoldable pub read_line : Bytes → Result (Bytes × Bytes)
unfolding until_newline trim_cr
read_line r = elim (until_newline r) [
  | none ↦ err eof
  | some (line, rest) ↦ ok (trim_cr line, rest)
]

-- `io.ReadFull` of `n + 2` bytes, of which the first `n` are the text.
abbrev read_text : ℕ → Bytes → Result (Reply × Bytes)
read_text n r = if ltb (length r) (n + 2) then err eof else ok (text (take n r), drop (n + 2) r)

read_bulk : Option ℤ → Bytes → Result (Reply × Bytes)
read_bulk none r = err bad_number
read_bulk (some (pos n)) r = read_text n r
read_bulk (some (negsuc zero)) r = err redis_missing
read_bulk (some (negsuc (suc n))) r = err out_of_range

number_reply : Option ℤ → Bytes → Result (Reply × Bytes)
number_reply none r = err bad_number
number_reply (some n) r = ok (number n, r)

reply_of : ℕ → Bytes → Bytes → Result (Reply × Bytes)
reply_of prefix line r =
    if prefix == b'+'
    then ok (text line, r)
    else if prefix == b'-'
    then err error_reply
    else if prefix == b':'
    then number_reply (parse_int64 line) r
    else if prefix == b'$'
    then read_bulk (parse_int64 line) r
    else err unknown_prefix

-- The reply at the front of what was received, and the rest.
unfoldable pub read_reply : Bytes → Result (Reply × Bytes)
unfolding reply_of read_bulk number_reply read_line
read_reply [] = err eof
read_reply (prefix ∷ r) = elim (read_line r) [
  | err e ↦ err e
  | ok (line, rest) ↦ reply_of prefix line rest
]
