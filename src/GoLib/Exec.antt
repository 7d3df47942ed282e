-- ===== src/GoLib/Exec.antt =====
-- Go functions that return `(A, error)` and act on the world outside: the stores, the file system,
-- the clock. What was done before an error stays done, so the world comes back beside the error.
use cloud_native_entry_task.Prelude.{◌≡◌, refl, ap, ◌∙◌, Bool, true, false, if◌then◌else◌}
use cloud_native_entry_task.GoLib.Errors.{Error, Result, ok, err}

abbrev pub Exec : Type 0 → Type 0 → Type 0
Exec W A = W → Result A × W

module _ {W A : Type 0} where
  abbrev pub pure : A → Exec W A
  pure a w = (ok a, w)

  abbrev pub raise : Error → Exec W A
  raise e w = (err e, w)

  abbrev pub lift : Result A → Exec W A
  lift r w = (r, w)

  -- `_ = f()`: the error is dropped.
  abbrev pub ignore : Exec W A → Exec W (Unit {0})
  ignore m w = (ok tt, (m w).1)

module _ {W A B : Type 0} where
  abbrev pub continue : Result A → (A → Exec W B) → Exec W B
  continue (ok a) f w = f a w
  continue (err e) f w = (err e, w)

  infixl 5 ◌>>=◌ ◌>>◌
  abbrev pub ◌>>=◌ : Exec W A → (A → Exec W B) → Exec W B
  ◌>>=◌ m f w = continue (m w).0 f (m w).1

  abbrev pub ◌>>◌ : Exec W A → Exec W B → Exec W B
  m >> n = m >>= λ _. n

  -- What follows a call whose error the caller inspects.
  abbrev pub on_error : (Error → Exec W B) → (A → Exec W B) → Result A → Exec W B
  on_error handle f (ok a) = f a
  on_error handle f (err e) = handle e

  abbrev pub try : Exec W A → (Error → Exec W B) → (A → Exec W B) → Exec W B
  try m handle f w = on_error handle f (m w).0 (m w).1

  -- Inversion of a call that succeeded.
  pub bind_ok :
      (m : Exec W A) (f : A → Exec W B) (w w' : W) (b : B)
      → (m >>= f) w ≡ (ok b, w')
      → (a : A) × (w1 : W) × (m w ≡ (ok a, w1)) × (f a w1 ≡ (ok b, w'))
  bind_ok m f w w' b h = split (m w).0 (m w).1 refl h
    where
      split :
          (r : Result A) (w1 : W)
          → m w ≡ (r, w1)
          → continue r f w1 ≡ (ok b, w')
          → (a : A) × (w1 : W) × (m w ≡ (ok a, w1)) × (f a w1 ≡ (ok b, w'))
      split (ok a) w1 e k = (a, w1, e, k)
      split (err x) w1 e k = absurd (cc)

  pub try_ok :
      (m : Exec W A) (handle : Error → Error) (f : A → Exec W B) (w w' : W) (b : B)
      → try m (λ e. raise (handle e)) f w ≡ (ok b, w')
      → (a : A) × (w1 : W) × (m w ≡ (ok a, w1)) × (f a w1 ≡ (ok b, w'))
  try_ok m handle f w w' b h = split (m w).0 (m w).1 refl h
    where
      split :
          (r : Result A) (w1 : W)
          → m w ≡ (r, w1)
          → on_error (λ e. raise (handle e)) f r w1 ≡ (ok b, w')
          → (a : A) × (w1 : W) × (m w ≡ (ok a, w1)) × (f a w1 ≡ (ok b, w'))
      split (ok a) w1 e k = (a, w1, e, k)
      split (err x) w1 e k = absurd (cc)

-- A call and then a result: the world is the call's.
pub then_pure_world :
    {W A B : Type 0} (m : Exec W A) (b c : B) (w w' : W)
    → (m >> pure b) w ≡ (ok c, w')
    → (m w).1 ≡ w'
then_pure_world {W} {A} m b c w w' h = split (m w).0 (m w).1 h
  where
    split : (r : Result A) (w1 : W) → continue r (λ _. pure b) w1 ≡ (ok c, w') → w1 ≡ w'
    split (ok a) w1 e = ap (λ p. p.1) e
    split (err x) w1 e = ap (λ p. p.1) e

-- Two runs are equal where their first calls are, and what follows a success of these.
pub bind_same :
    {W A B : Type 0} (m m' : Exec W A) (f f' : A → Exec W B) (w : W)
    → m w ≡ m' w
    → ((a : A) (w1 : W) → m' w ≡ (ok a, w1) → f a w1 ≡ f' a w1)
    → (m >>= f) w ≡ (m' >>= f') w
bind_same {W} {A} m m' f f' w first rest =
    ap (λ r. continue r.0 f r.1) first ∙ follow (m' w).0 (m' w).1 refl
  where
    follow : (r : Result A) (w1 : W) → m' w ≡ (r, w1) → continue r f w1 ≡ continue r f' w1
    follow (ok a) w1 e = rest a w1 e
    follow (err x) w1 e = refl

-- The same for a run under a test, branch by branch.
pub choose_same :
    {W A : Type 0} (b : Bool) (m m' n n' : Exec W A) (w : W)
    → m w ≡ m' w
    → n w ≡ n' w
    → (if b then m else n) w ≡ (if b then m' else n') w
choose_same true m m' n n' w e f = e
choose_same false m m' n n' w e f = f

-- What a run under a test gave, one of its branches gave.
pub choose_elim :
    {W A : Type 0} (X : Type 0) (b : Bool) (m n : Exec W A) (w : W) (r : Result A × W)
    → (m w ≡ r → X)
    → (n w ≡ r → X)
    → (if b then m else n) w ≡ r
    → X
choose_elim X true m n w r f g e = f e
choose_elim X false m n w r f g e = g e
