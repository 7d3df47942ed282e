-- ===== src/Seed/Tests.antt =====
-- Three users in batches of two, by one worker, into a database that counts its statements.
use cloud_native_entry_task.Prelude.{
  ℕ, suc, ◌≡◌, refl, ◌↔◌, true, List, [], ◌∷◌, map, All, arith, length-replicate, occurrences,
  replicate, leb, ◌&&◌, ◌≤◌, ◌*◌, ◌⊎◌, if◌then◌else◌, codes,
}
use cloud_native_entry_task.Prelude.Int.{pos}
use cloud_native_entry_task.GoLib.Errors.{ok}
use cloud_native_entry_task.GoLib.Strings.{itoa}
use cloud_native_entry_task.Service.Password.{hash_password}
use cloud_native_entry_task.Config.Types.{Config, default_config}
use cloud_native_entry_task.Store.Mysql.Seeding.{SeedUser, insert_seed_users}
use cloud_native_entry_task.Seed.{
  Job, Outside, job_of, or_default, format_08d, make_users, batch_length, user_count, insert_batch,
}
use cloud_native_entry_task.Seed.Users.{count_up, user_name, Accepts, make_users-Accepts}
use cloud_native_entry_task.Seed.Steps.{
  Progress, begin, send, receive, insert, Run, here, next, IsFinished, result_of, Step,
}
use cloud_native_entry_task.Seed.Steps.Termination.{seed_ends}
use cloud_native_entry_task.Seed.Coverage.{ids_of, ended_starts}
use cloud_native_entry_task.Seed.Coverage.Outcome.{WasInserted, seed_result}

abbrev three_users : Config
three_users = record default_config {
  security = record default_config.security { password_iterations = pos 1 };
  seed = record default_config.seed { count = pos 3; batch_size = pos 2; concurrency = pos 1 };
}

abbrev counting : Outside ℕ
counting = record {
  pbkdf2 = λ password salt iterations n. ok (replicate n 5);
  rand_read = λ n w. (ok (replicate n 3), w);
  exec = λ query args w. (ok tt, suc w);
}

abbrev three : Job ℕ
three = job_of three_users counting 3

abbrev finished : Progress ℕ
finished = record {
  next_start = 5;
  jobs = [];
  busy = [];
  done = 3;
  ended = (3, true) ∷ (1, true) ∷ [];
  world = 2;
}

name_of_seven : user_name 7 ≡ codes "user00000007"
unfolding format_08d itoa
name_of_seven = refl

flag_first : user_count three_users (pos 8) ≡ pos 8
unfolding user_count
flag_first = refl

inserts_first : insert_batch three 1 0 ≡ (ok tt, 1)
unfolding insert_batch hash_password insert_seed_users job_of
inserts_first = refl

inserts_second : insert_batch three 3 1 ≡ (ok tt, 2)
unfolding insert_batch hash_password insert_seed_users job_of
inserts_second = refl

sample-Run : Run three (begin 0) 6 finished
unfolding job_of begin batch_length
sample-Run =
    next
      (next
        (next
          (next
            (next (next here (send (omega arith) (omega arith) (omega arith)))
              (receive 1 [] refl (omega arith)))
            (insert [] 1 [] 1 refl inserts_first))
          (send (omega arith) (omega arith) (omega arith)))
        (receive 3 [] refl (omega arith)))
      (insert [] 3 [] 2 refl inserts_second)

is_finished : IsFinished three finished
unfolding job_of
is_finished = record { sent = omega arith; drained = refl; idle = refl }

make_users-Accepts_example :
    (users : List SeedUser) × (w' : ℕ) × (make_users three 1 2 0 ≡ (ok users, w'))
    × (map (λ u. u.username) users ≡ map user_name (count_up 1 2))
    × All (Accepts three) users
make_users-Accepts_example =
    make_users-Accepts three (unfold job_of in refl)
      (unfold job_of in λ n w. (replicate n 3, w, refl, length-replicate n 3))
      (unfold job_of in λ password salt iterations n h. (replicate n 5, refl, length-replicate n 5))
      1 2 0

seed_ends_example :
    (6 ≤ 3 * 3) × (IsFinished three finished ⊎ ((t : Progress ℕ) × Step three finished t))
seed_ends_example =
    seed_ends three_users counting 3 6 0 finished (unfold or_default in omega arith) sample-Run

seed_result_example :
    (occurrences 2 (ids_of three (ended_starts three finished.ended))
      ≡ (if leb 1 2 && leb 2 three.count then 1 else 0))
    × ((result_of three finished ≡ ok tt) ↔ All WasInserted finished.ended)
seed_result_example =
    seed_result three 0 6 finished 2 (unfold job_of in omega arith) sample-Run is_finished
