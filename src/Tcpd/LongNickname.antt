-- ===== src/Tcpd/LongNickname.antt =====
-- internal/service/service.go, `New`, and db/schema.sql: the limit on nicknames against the column.
use cloud_native_entry_task.Prelude.{
  ℕ, ◌≤◌, ◌<◌, ◌≡◌, refl, sym, ap, ◌∙◌, inl, inr, Bytes, arith, length,
}
use cloud_native_entry_task.GoLib.Errors.{Error, external, is_store_not_found, ok, err}
use cloud_native_entry_task.GoLib.Exec.{try, ◌>>=◌}
use cloud_native_entry_task.GoLib.Strings.{trim_space, valid_string}
use cloud_native_entry_task.GoLib.Strings.Ascii.{IsAscii, valid_string_of_ascii}
use cloud_native_entry_task.Config.Types.{Config}
use cloud_native_entry_task.Service.Errors.{error_code}
use cloud_native_entry_task.Service.Interfaces.{Service}
use cloud_native_entry_task.Service.New.{service_of}
use cloud_native_entry_task.Service.New.Sound.{new_ok}
use cloud_native_entry_task.Service.Account.{update_nickname}
use cloud_native_entry_task.Service.Account.Nickname.{IsNickname, update_nickname_cases}
use cloud_native_entry_task.Store.Mysql
use cloud_native_entry_task.Store.Mysql.{Db}
use cloud_native_entry_task.Tcpd.{Surroundings, mysql_store, start}
use cloud_native_entry_task.Tcpd.Logout.{start_ok}

-- MySQL's "Data too long for column"
abbrev pub data_too_long : Error
data_too_long = external 60

-- db/schema.sql gives the nickname 191 characters, and a character of an ASCII text is a byte; in its
-- strict mode MySQL refuses a longer text.
abbrev pub RefusesLong : {W : Type 0} → Db W → Type 0
RefusesLong {W} db =
    (nickname : Bytes) (id : ℕ) (w : W)
    → IsAscii nickname
    → 191 < length nickname
    → (db.exec_update_nickname nickname id w).0 ≡ err data_too_long

-- A name that passes the check, and that the store refuses, is refused with the store's error.
refused_update :
    {W : Type 0} (s : Service W) (id : ℕ) (raw : Bytes) (w : W)
    → IsNickname s.max_nickname_bytes (trim_space raw)
    → (s.store.update_nickname id (trim_space raw) w).0 ≡ err data_too_long
    → (update_nickname s id raw w).0 ≡ err data_too_long
unfolding is_store_not_found
refused_update s id raw w good refused = elim (update_nickname_cases s w id raw) [
  | inl (_, e) ↦ ap (λ r. r.0) e ∙ rw (refused, try) refl
  | inr (bad, _) ↦ absurd (bad good)
]

module _ {W : Type 0} (o : Surroundings W) (refuses : RefusesLong o.db) where
  store_refuses :
      (nickname : Bytes) (id : ℕ) (w : W)
      → IsAscii nickname
      → 191 < length nickname
      → (Mysql.update_nickname o.db id nickname w).0 ≡ err data_too_long
  unfolding Mysql.update_nickname
  store_refuses nickname id w ascii long = rw (refuses nickname id w ascii long, ◌>>=◌) refl

  -- In a backend that has started, against a database with such a column: a trimmed ASCII nickname of
  -- 192 to 764 bytes passes the service's check, and its change ends in an internal error.
  pub long_nickname :
      (cfg : Config) (w w' : W) (s : Service W) (id : ℕ) (nickname : Bytes) (v : W)
      → start o cfg w ≡ (ok s, w')
      → trim_space nickname ≡ nickname
      → IsAscii nickname
      → 191 < length nickname
      → length nickname ≤ 764
      → (e : Error) × ((update_nickname s id nickname v).0 ≡ err e)
        × (error_code e ≡ ("internal_error", "Internal server error."))
  unfolding service_of error_code
  long_nickname cfg w w' s id nickname v started trimmed ascii long short =
      let (options, _, _, _, _, made) = start_ok o cfg w w' s started in
      let (_, _, _, _, same) =
        new_ok o.host o.decode_hex o.getwd (mysql_store o) cfg options s made in
      let max : s.max_nickname_bytes ≡ 764 = ap (λ t. t.max_nickname_bytes) same in
      let is_nickname : IsNickname s.max_nickname_bytes (trim_space nickname) = record {
        nonempty = λ e. omega (arith, ap length (sym trimmed ∙ e));
        is_utf8 = ap valid_string trimmed ∙ valid_string_of_ascii nickname ascii;
        short = omega (arith, ap length trimmed, max);
      } in
      let refused : (s.store.update_nickname id (trim_space nickname) v).0 ≡ err data_too_long =
        ap (λ t. (t.store.update_nickname id (trim_space nickname) v).0) same
        ∙ ap (λ n. (Mysql.update_nickname o.db id n v).0) trimmed
        ∙ store_refuses nickname id v ascii long in
      (data_too_long, refused_update s id nickname v is_nickname refused, refl)
