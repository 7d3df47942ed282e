-- ===== src/Store/Redis/Resp/Commands.antt =====
-- A command is read as the arguments that it was written from, whatever bytes they hold.
use mathlib.Core.List.{append_assoc}
use cloud_native_entry_task.Prelude.{
  ℕ, zero, suc, ◌+◌, ◌-◌, ◌*◌, ◌≡◌, refl, ◌∙◌, true, false, Option, none, some, List, [], ◌∷◌, ◌++◌,
  Bytes, arith, length, take, drop, ◌==◌, ◌&&◌, if◌then◌else◌, bytes_eq, bytes_eq_refl,
  take-append_length, drop-append_length,
}
use cloud_native_entry_task.GoLib.Strings.{itoa}
use cloud_native_entry_task.GoLib.Strings.Decimal.{Digits, itoa-Digits, parse_digits-itoa}
use cloud_native_entry_task.GoLib.Numbers.{is_digit, parse_digits}
use cloud_native_entry_task.Store.Redis.Resp.{crlf, argument_chunks, command_chunks}

abbrev pub concat : List Bytes → Bytes
concat [] = []
concat (x ∷ xs) = x ++ concat xs

-- A server's reading, by the protocol's own description: digits up to a line break,
read_count : ℕ → Bytes → Option (ℕ × Bytes)
read_count n [] = none
read_count n (c ∷ []) = none
read_count n (c ∷ d ∷ s) = elim (is_digit c) [
  | true ↦ read_count (n * 10 + (c - 48)) (d ∷ s)
  | false ↦ if (c == b'\r') && (d == b'\n') then some (n, s) else none
]

-- a number after a mark,
pub read_mark : ℕ → Bytes → Option (ℕ × Bytes)
read_mark mark [] = none
read_mark mark (c ∷ s) = if c == mark then read_count 0 s else none

-- a text of the length that was told, with a line break behind it,
pub read_counted : Option (ℕ × Bytes) → Option (Bytes × Bytes)
read_counted none = none
read_counted (some (n, s)) =
    if bytes_eq (take 2 (drop n s)) crlf then some (take n s, drop 2 (drop n s)) else none

-- so many texts, and a command.
read_arguments : ℕ → Bytes → Option (List Bytes × Bytes)
read_arguments zero s = some ([], s)
read_arguments (suc n) s = elim (read_counted (read_mark b'$' s)) [
  | none ↦ none
  | some (arg, rest) ↦ elim (read_arguments n rest) [
    | none ↦ none
    | some (args, end) ↦ some (arg ∷ args, end)
  ]
]

pub read_command : Bytes → Option (List Bytes × Bytes)
unfolding read_arguments read_counted read_mark read_count
read_command s = elim (read_mark b'*' s) [ none ↦ none | some (n, rest) ↦ read_arguments n rest ]

read_count-Digits :
    (n m : ℕ) (s rest : Bytes)
    → Digits s
    → parse_digits n s ≡ some m
    → read_count n (s ++ (crlf ++ rest)) ≡ some (m, rest)
unfolding read_count parse_digits
read_count-Digits n m [] rest d e = ground arith
read_count-Digits n m (c ∷ []) rest d e =
    rw (d.0, read_count)
      (read_count-Digits (n * 10 + (c - 48)) m [] rest tt (rw (d.0, parse_digits) at e))
read_count-Digits n m (c ∷ c' ∷ s) rest d e =
    rw (d.0, read_count)
      (read_count-Digits (n * 10 + (c - 48)) m (c' ∷ s) rest d.1 (rw (d.0, parse_digits) at e))

pub read_mark-itoa :
    (mark n : ℕ) (rest : Bytes)
    → read_mark mark (mark ∷ (itoa n ++ (crlf ++ rest))) ≡ some (n, rest)
unfolding read_mark
read_mark-itoa mark n rest =
    let here : (mark == mark) ≡ true = ground arith in
    rw (here, read_mark) (read_count-Digits 0 n (itoa n) rest (itoa-Digits n) (parse_digits-itoa n))

pub read_mark-other : (mark c : ℕ) (s : Bytes) → (c == mark) ≡ false → read_mark mark (c ∷ s) ≡ none
unfolding read_mark
read_mark-other mark c s h = rw (h, read_mark) refl

pub read_counted-append :
    (arg rest : Bytes) → read_counted (some (length arg, arg ++ (crlf ++ rest))) ≡ some (arg, rest)
unfolding read_counted
read_counted-append arg rest =
    rw
      (
        drop-append_length arg (crlf ++ rest),
        take-append_length arg (crlf ++ rest),
        bytes_eq_refl crlf,
      )
      refl

read_arguments_step :
    (n : ℕ) (s arg rest : Bytes) (args : List Bytes) (end : Bytes)
    → read_counted (read_mark b'$' s) ≡ some (arg, rest)
    → read_arguments n rest ≡ some (args, end)
    → read_arguments (suc n) s ≡ some (arg ∷ args, end)
unfolding read_arguments
read_arguments_step n s arg rest args end first others = rw (first, read_arguments, others) refl

read_arguments-argument_chunks :
    (args : List Bytes) (rest : Bytes)
    → read_arguments (length args) (concat (argument_chunks args) ++ rest) ≡ some (args, rest)
read_arguments-argument_chunks [] rest = unfold read_arguments in refl
read_arguments-argument_chunks (arg ∷ args) rest =
    let after = concat (argument_chunks args) ++ rest in
    let shape : concat (argument_chunks (arg ∷ args)) ++ rest
        ≡ b'$' ∷ (itoa (length arg) ++ (crlf ++ (arg ++ (crlf ++ after)))) =
      simp append_assoc in
    rw shape (
      read_arguments_step (length args) _ arg after args rest
        (rw (read_mark-itoa b'$' (length arg) (arg ++ (crlf ++ after)))
          (read_counted-append arg after))
        (read_arguments-argument_chunks args rest))

read_command_lem :
    (s rest : Bytes) (n : ℕ)
    → read_mark b'*' s ≡ some (n, rest)
    → read_command s ≡ read_arguments n rest
unfolding read_command
read_command_lem s rest n h = rw (h, read_command) refl

-- A server that reads what a command was written as, before anything that follows, finds the
-- arguments of that command, whatever bytes they hold, and leaves the rest.
pub read_command-command_chunks :
    (args : List Bytes) (rest : Bytes)
    → read_command (concat (command_chunks args) ++ rest) ≡ some (args, rest)
read_command-command_chunks args rest =
    let after = concat (argument_chunks args) ++ rest in
    let shape : concat (command_chunks args) ++ rest
        ≡ b'*' ∷ (itoa (length args) ++ (crlf ++ after)) =
      simp append_assoc in
    rw shape (
      read_command_lem _ after (length args) (read_mark-itoa b'*' (length args) after)
      ∙ read_arguments-argument_chunks args rest)
