-- ===== src/Service/Account/Sessions.antt =====
-- Who a token stands for, and what logging in leaves behind.
use cloud_native_entry_task.Prelude.{
  ℕ, ◌≡◌, ◌≢◌, ◌↔◌, refl, inl, inr, true, false, Option, none, some, Bytes, is_empty, arith,
  Bool-cases, sym, ◌∙◌, ◌||◌, if◌then◌else◌, ap, subst,
}
use cloud_native_entry_task.Prelude.Int.{ℤ, leb_ℤ, ◌-ℤ◌}
use cloud_native_entry_task.GoLib.Strings.{trim_space}
use cloud_native_entry_task.Protocol.Messages.{LoginBody, LoginResult}
use cloud_native_entry_task.GoLib.Errors.{unauthorized, is_store_not_found, ok, err, Result-cases}
use cloud_native_entry_task.GoLib.Exec.{pure, bind_ok, try_ok}
use cloud_native_entry_task.Service.Token.{TokenCodecLaws, issue, verify, unix}
use cloud_native_entry_task.Service.Token.Verify.{verify-issue_told}
use cloud_native_entry_task.Service.Password.{verify_password}
use cloud_native_entry_task.Service.Interfaces.{Service, SessionStore}
use cloud_native_entry_task.Service.Account.{
  invalid_credentials, seconds, save_login, start_session, check_password, find_user, login,
  to_protocol_profile, check_session, require_user,
}
use cloud_native_entry_task.Store.Mysql.{UserAuth, UserProfile}

module _ {W : Type 0} (s : Service W) where
  -- What the session store, if there is one, must have said: the token's own user.
  abbrev pub SessionAgrees : Option (SessionStore W) → Bytes → ℕ → W → W → Type 0
  SessionAgrees none token user_id w w' = w' ≡ w
  SessionAgrees (some st) token user_id w w' = st.get_session token w ≡ (ok (some user_id), w')

  check_session_sound :
      (sessions : Option (SessionStore W)) (token : Bytes) (user_id id : ℕ) (w w' : W)
      → check_session s sessions token user_id w ≡ (ok id, w')
      → (user_id ≡ id) × SessionAgrees sessions token id w w'
  unfolding check_session
  check_session_sound none token user_id id w w' h = ground arith
  check_session_sound (some st) token user_id id w w' h = ground arith

  require_user_sound :
      (token : Bytes) (w w' : W) (id : ℕ)
      → require_user s token w ≡ (ok id, w')
      → (is_empty (trim_space token) ≡ false)
        × (verify s.host.token_codec s.tokens token (s.host.clock w).0 ≡ ok id)
        × SessionAgrees s.sessions token id (s.host.clock w).1 w'
  unfolding require_user
  require_user_sound token w w' id h = elim (Bool-cases (is_empty (trim_space token))) [
    | inl blank ↦ absurd (cc (rw (blank, require_user) at h))
    | inr kept ↦ elim (Result-cases (verify s.host.token_codec s.tokens token (s.host.clock w).0)) [
      | inl (user_id, verified) ↦
          let (same, agrees) =
            check_session_sound s.sessions token user_id id (s.host.clock w).1 w'
              (rw (kept, require_user, verified) at h) in
          (kept, verified ∙ ap ok same, agrees)
      | inr (e, refused) ↦ absurd (cc (rw (kept, require_user, refused) at h))
    ]
  ]

  check_session_complete :
      (sessions : Option (SessionStore W)) (token : Bytes) (id : ℕ) (w w' : W)
      → SessionAgrees sessions token id w w'
      → check_session s sessions token id w ≡ (ok id, w')
  unfolding check_session
  check_session_complete none token id w w' h = ground arith
  check_session_complete (some st) token id w w' h = ground arith

  -- A token gives a user exactly where it is not blank, verifies as that user's at the time of the
  -- call, and, with a session store, the store holds that user under the token.
  pub require_user_iff :
      (token : Bytes) (w w' : W) (id : ℕ)
      → (require_user s token w ≡ (ok id, w')) ↔ (
          (is_empty (trim_space token) ≡ false)
          × (verify s.host.token_codec s.tokens token (s.host.clock w).0 ≡ ok id)
          × SessionAgrees s.sessions token id (s.host.clock w).1 w')
  require_user_iff token w w' id = (
    require_user_sound token w w' id,
    λ (kept, verified, agrees).
        unfold require_user in
        rw (kept, require_user, verified)
          (check_session_complete s.sessions token id (s.host.clock w).1 w' agrees),
  )

  -- The session store, if there is one, was told of the token and its user, for the time left
  -- until the token expires, which left the world as it is given.
  abbrev pub SessionSaved : Option (SessionStore W) → Bytes → ℕ → ℤ → W → Type 0
  SessionSaved none token user_id exp saved = Unit
  SessionSaved (some st) token user_id exp saved =
      (w : W) × (st.save_session token user_id (seconds exp -ℤ (s.host.clock w).0)
          (s.host.clock w).1
        ≡ (ok tt, saved))

  save_login_ok :
      (sessions : Option (SessionStore W)) (token : Bytes) (user_id : ℕ) (exp : ℤ) (w w' : W)
      → save_login s sessions token user_id exp w ≡ (ok tt, w')
      → SessionSaved sessions token user_id exp w'
  unfolding save_login
  save_login_ok none token user_id exp w w' h = tt
  save_login_ok (some st) token user_id exp w w' h = (w, h)

  answer : Bytes × ℤ → UserProfile → LoginResult
  answer issued profile = record {
    token = issued.0;
    expires_at = issued.1;
    user = to_protocol_profile s profile;
  }

  -- The end of a login: its session was saved, and then the profile was read, which it tells.
  abbrev pub Started : ℕ → LoginResult → W → Type 0
  Started user_id r w' =
      (saved : W) × (profile : UserProfile) × SessionSaved s.sessions r.token user_id r.expires_at
        saved
      × (s.store.get_user_profile_by_id user_id saved ≡ (ok profile, w'))
      × (r.user ≡ to_protocol_profile s profile)

  start_session_ok :
      (user : UserAuth) (w w' : W) (r : LoginResult)
      → start_session s user w ≡ (ok r, w')
      → (t : ℤ) × (nonce : Bytes) × ((r.token, r.expires_at)
          ≡ issue s.host.token_codec s.tokens user.id t nonce)
        × Started user.id r w'
  unfolding start_session answer
  start_session_ok user w w' r h =
      let t = (s.host.clock w).0 in
      let (nonce, w1, drawn, h1) = bind_ok (s.host.rand_read 16) _ (s.host.clock w).1 w' r h in
      let issued = issue s.host.token_codec s.tokens user.id t nonce in
      let (_, w2, saved, h2) =
        bind_ok (save_login s s.sessions issued.0 user.id issued.1) _ w1 w' r h1 in
      let (profile, w3, read, h3) = bind_ok (s.store.get_user_profile_by_id user.id) _ w2 w' r h2 in
      let same : answer issued profile ≡ r = cc in
      let last : w3 ≡ w' = ap (λ q. q.1) h3 in
      let (token_of, kept) =
        subst
          (λ (q : LoginResult).
            (◌≡◌ {A = Bytes × ℤ} (q.token, q.expires_at) issued) × Started user.id q w')
          same
          (
            refl,
            (
              w2,
              profile,
              save_login_ok s.sessions issued.0 user.id issued.1 w1 w2 saved,
              read ∙ ap (λ v. (ok profile, v)) last,
              refl,
            ),
          ) in
      (t, nonce, token_of, kept)

  check_password_ok :
      (password : Bytes) (user : UserAuth) (w w' : W)
      → check_password s password user w ≡ (ok tt, w')
      → verify_password s.host.pbkdf2 password user.password_salt user.password_hash
          user.password_iter
        ≡ ok true
  unfolding check_password
  check_password_ok password user w w' h = ground arith

  verify_issued :
      (user : UserAuth) (issued_at t : ℤ) (nonce token : Bytes) (exp : ℤ)
      → TokenCodecLaws s.host.token_codec
      → user.id ≢ 0
      → (token, exp) ≡ issue s.host.token_codec s.tokens user.id issued_at nonce
      → verify s.host.token_codec s.tokens token t
        ≡ (if leb_ℤ exp (unix t) then err unauthorized else ok user.id)
  verify_issued user issued_at t nonce token exp laws nonzero e =
      subst
        (λ (q : Bytes × ℤ).
          verify s.host.token_codec s.tokens q.0 t
          ≡ (if leb_ℤ q.1 (unix t) then err unauthorized else ok user.id))
        (sym e)
        (verify-issue_told s.host.token_codec s.tokens user.id issued_at t nonce laws nonzero)

  find_user_ok :
      (username : Bytes) (user : UserAuth) (w w' : W)
      → find_user s username w ≡ (ok user, w')
      → (s.store.get_user_auth_by_username username w).0 ≡ ok user
  unfolding find_user
  find_user_ok username user w w' h =
      let (found, w1, called, same) =
        try_ok (s.store.get_user_auth_by_username username)
          (λ e. if is_store_not_found e then invalid_credentials else e) pure w w' user h in
      ap (λ q. q.0) called ∙ ground (arith, same)

  -- The three steps of a login that succeeds.
  login_steps :
      (body : LoginBody) (w w' : W) (r : LoginResult)
      → login s body w ≡ (ok r, w')
      → (user : UserAuth) × (w1 : W) × (w2 : W) × (find_user s (trim_space body.username) w
          ≡ (ok user, w1))
        × (check_password s body.password user w1 ≡ (ok tt, w2))
        × (start_session s user w2 ≡ (ok r, w'))
  unfolding login
  login_steps body w w' r h =
      elim (Bool-cases (is_empty (trim_space body.username) || is_empty body.password)) [
        | inl blank ↦ absurd (cc (rw (blank, login) at h))
        | inr given ↦
            let (user, w1, found, h1) =
              bind_ok (find_user s (trim_space body.username)) _ w w' r (rw (given, login) at h) in
            let (_, w2, checked, h2) = bind_ok (check_password s body.password user) _ w1 w' r h1 in
            (user, w1, w2, found, checked, h2)
      ]

  -- If the token codec meets its laws, a login that succeeds, of a user with an id that is not zero
  -- whom the store knows by the trimmed name, has verified the password; its token is that user's
  -- until the time told, and no longer; the session store, if there is one, was told of it; and
  -- after that the user's profile, which it tells, was read, and nothing else was done.
  pub login_sound :
      (body : LoginBody) (w w' : W) (r : LoginResult) (user : UserAuth) (t : ℤ)
      → TokenCodecLaws s.host.token_codec
      → (s.store.get_user_auth_by_username (trim_space body.username) w).0 ≡ ok user
      → user.id ≢ 0
      → login s body w ≡ (ok r, w')
      → (verify_password s.host.pbkdf2 body.password user.password_salt user.password_hash
            user.password_iter
          ≡ ok true)
        × (verify s.host.token_codec s.tokens r.token t
            ≡ (if leb_ℤ r.expires_at (unix t) then err unauthorized else ok user.id))
        × Started user.id r w'
  login_sound body w w' r user t laws known nonzero h =
      let (u, w1, w2, found, checked, started) = login_steps body w w' r h in
      let same : u ≡ user = ground (arith, find_user_ok (trim_space body.username) u w w1 found) in
      let (issued_at, nonce, issued, saved) =
        start_session_ok user w2 w' r
          (subst (λ v. start_session s v w2 ≡ (ok r, w')) same started) in
      (
        check_password_ok body.password user w1 w2
            (subst (λ v. check_password s body.password v w1 ≡ (ok tt, w2)) same checked),
        verify_issued user issued_at t nonce r.token r.expires_at laws nonzero issued,
        saved,
      )
