-- ===== src/GoLib/Strings/Ascii.antt =====
-- ASCII texts are valid UTF-8.
use cloud_native_entry_task.Prelude.{ℕ, ◌<◌, ◌≡◌, refl, true, some, [], ◌∷◌, Bytes, All, arith}
use cloud_native_entry_task.GoLib.Strings.{ranges_after, valid_from, valid_string}

abbrev pub IsAscii : Bytes → Type 0
IsAscii s = All (λ c. c < 128) s

ranges_after_ascii : (c : ℕ) → c < 128 → ranges_after c ≡ some []
unfolding ranges_after
ranges_after_ascii c h = ground arith

valid_from_ascii : (s : Bytes) → IsAscii s → valid_from [] s ≡ true
unfolding valid_from
valid_from_ascii [] h = refl
valid_from_ascii (c ∷ s) h = rw (ranges_after_ascii c h.0, valid_from) (valid_from_ascii s h.1)

pub valid_string_of_ascii : (s : Bytes) → IsAscii s → valid_string s ≡ true
unfolding valid_string
valid_string_of_ascii = valid_from_ascii
