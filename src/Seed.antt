-- ===== src/Seed.antt =====
-- cmd/seed/main.go: users in batches, by workers that take the batches from a channel.
pub mod Users
pub mod Steps
pub mod Coverage
mod Tests
use cloud_native_entry_task.Prelude.{
  ℕ, suc, zero, ◌+◌, ◌-◌, List, [], ◌∷◌, ◌++◌, Bytes, codes, length, replicate, if◌then◌else◌, leb,
}
use cloud_native_entry_task.Prelude.Int.{ℤ, pos, negsuc, leb_ℤ}
use cloud_native_entry_task.GoLib.Strings.{itoa}
use cloud_native_entry_task.GoLib.Errors.{Error, external}
use cloud_native_entry_task.GoLib.Exec.{Exec, pure, raise, lift, ◌>>=◌}
use cloud_native_entry_task.Service.Password.{Pbkdf2, salt_bytes, bad_iterations, hash_password}
use cloud_native_entry_task.Store.Mysql.Seeding.{SeedUser, Arg, insert_seed_users}
use cloud_native_entry_task.Config.Types.{Config}

-- The parts that reach outside: PBKDF2, `rand.Read`, and `ExecContext` of the database.
pub record Outside (W : Type 0) : Type 0 where
  pub pbkdf2 : Pbkdf2
  pub rand_read : ℕ → Exec W Bytes
  pub exec : Bytes → List Arg → Exec W (Unit {0})

-- What a run works with; its numbers are positive.
pub record Job (W : Type 0) : Type 0 where
  pub count : ℕ
  pub batch_size : ℕ
  pub workers : ℕ
  pub iterations : ℤ
  pub password : Bytes
  pub outside : Outside W

-- `if n <= 0 { n = d }`
unfoldable pub or_default : ℤ → ℕ → ℕ
or_default (pos zero) d = d
or_default (pos (suc n)) d = suc n
or_default (negsuc n) d = d

-- The number of users: the flag's, if it is positive.
unfoldable pub user_count : Config → ℤ → ℤ
user_count cfg flag = if leb_ℤ flag (pos 0) then cfg.seed.count else flag

-- The settings of `seed`, for a positive count.
unfoldable pub job_of : {W : Type 0} → Config → Outside W → ℕ → Job W
unfolding or_default
job_of cfg o count = record {
  count = count;
  batch_size = or_default cfg.seed.batch_size 1000;
  workers = or_default cfg.seed.concurrency 1;
  iterations = cfg.security.password_iterations;
  password = cfg.seed.default_password;
  outside = o;
}

-- `%08d`, of a number that is not negative.
unfoldable pub format_08d : ℕ → Bytes
format_08d n = let digits = itoa n in replicate (8 - length digits) b'0' ++ digits

module _ {W : Type 0} (j : Job W) where
  -- `service.HashPassword` at the default password: no salt is drawn for a bad iteration count.
  hash_default : Exec W (Bytes × Bytes)
  hash_default = if leb_ℤ j.iterations (pos 0) then raise bad_iterations else λ w.
      let (random, w') = j.outside.rand_read salt_bytes w in
      (hash_password j.outside.pbkdf2 j.password j.iterations random, w')

  unfoldable pub seed_user : ℕ → Bytes × Bytes → SeedUser
  unfolding format_08d
  seed_user id (salt, hash) = record {
    username = codes "user" ++ format_08d id;
    nickname = codes "User " ++ format_08d id;
    password_salt = salt;
    password_hash = hash;
    password_iter = j.iterations;
  }

  pub make_users : ℕ → ℕ → Exec W (List SeedUser)
  unfolding hash_default seed_user
  make_users start_id zero = pure []
  make_users start_id (suc n) = do
    hashed ← hash_default
    users ← make_users (suc start_id) n
    pure (seed_user start_id hashed ∷ users)

  -- `min(batchSize, count-startID+1)`, for a start up to the count
  unfoldable pub batch_length : ℕ → ℕ
  batch_length start_id =
      let left = j.count - start_id + 1 in if leb j.batch_size left then j.batch_size else left

  -- What a worker does with the start of a batch.
  pub insert_batch : ℕ → Exec W (Unit {0})
  unfolding make_users batch_length
  insert_batch start_id = do
    users ← make_users start_id (batch_length start_id)
    insert_seed_users j.outside.exec users
