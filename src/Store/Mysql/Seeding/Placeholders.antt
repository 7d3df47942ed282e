-- ===== src/Store/Mysql/Seeding/Placeholders.antt =====
-- The INSERT of the seeded users has a placeholder for every argument.
use cloud_native_entry_task.Prelude.{
  ◌*◌, ◌≡◌, refl, ◌∙◌, [], ◌∷◌, List, arith, length, codes, occurrences, occurrences-append,
}
use cloud_native_entry_task.Store.Mysql.Seeding.{
  SeedUser, row, rows, later_rows, insert_statement, insert_args,
}

length-insert_args : (users : List SeedUser) → length (insert_args users) ≡ 5 * length users
unfolding insert_args
length-insert_args [] = omega arith
length-insert_args (u ∷ users) = omega (arith, length-insert_args users)

occurrences-row : occurrences b'?' row ≡ 5
unfolding occurrences
occurrences-row = refl

occurrences-later_rows :
    (users : List SeedUser) → occurrences b'?' (later_rows users) ≡ 5 * length users
unfolding later_rows occurrences
occurrences-later_rows [] = omega arith
occurrences-later_rows (u ∷ users) =
    occurrences-append b'?' row (later_rows users)
    ∙ omega (arith, occurrences-row, occurrences-later_rows users)

occurrences-rows : (users : List SeedUser) → occurrences b'?' (rows users) ≡ 5 * length users
unfolding rows occurrences
occurrences-rows [] = omega arith
occurrences-rows (u ∷ users) =
    occurrences-append b'?' row (later_rows users)
    ∙ omega (arith, occurrences-row, occurrences-later_rows users)

-- The statement has as many placeholders as it is given arguments, five for each user.
pub placeholders-insert_args :
    (users : List SeedUser)
    → (occurrences b'?' (insert_statement users) ≡ length (insert_args users))
      × (length (insert_args users) ≡ 5 * length users)
unfolding insert_statement occurrences
placeholders-insert_args users = (
  occurrences-append b'?' (rows users) (codes " ON DUPLICATE KEY UPDATE username = username")
      ∙ omega (arith, occurrences-rows users, length-insert_args users),
  length-insert_args users,
)
