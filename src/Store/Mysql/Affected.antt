-- ===== src/Store/Mysql/Affected.antt =====
-- What the row count of an update decides.
use cloud_native_entry_task.Prelude.{ℕ, ◌≡◌}
use cloud_native_entry_task.GoLib.Errors.{store_not_found, ok, err}
use cloud_native_entry_task.GoLib.Exec.{◌>>=◌}
use cloud_native_entry_task.Store.Mysql.{UserProfile, Db, update_nickname}

-- MySQL counts the rows that an UPDATE changes, not those that it finds, unless the client asks for
-- the latter: a nickname that is there already changes no row.
abbrev pub CountsChangedRows : {W : Type 0} → Db W → Type 0
CountsChangedRows {W} db =
    (w : W) (id : ℕ) (p : UserProfile)
    → (db.query_user_profile id w).0 ≡ ok p
    → (db.exec_update_nickname p.nickname id w).0 ≡ ok (ok 0)

module _ {W : Type 0} (db : Db W) where
  -- If the database counts changed rows, a user in the table who sets the nickname that they have is
  -- reported as not found.
  pub update_nickname_same :
      (w : W) (id : ℕ) (p : UserProfile)
      → CountsChangedRows db
      → (db.query_user_profile id w).0 ≡ ok p
      → (update_nickname db id p.nickname w).0 ≡ err store_not_found
  unfolding update_nickname
  update_nickname_same w id p counts found = rw (counts w id p found, ◌>>=◌)
