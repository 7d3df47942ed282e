-- ===== src/Service/Account/Revocation.antt =====
-- How long a session lasts, with a session store that keeps what it is told.
use cloud_native_entry_task.Prelude.{
  ℕ, ◌≡◌, ◌≢◌, refl, sym, ap, ◌∙◌, subst, inl, inr, false, Option, none, some, Bytes, Bool-cases,
  is_empty, bytes_eq_refl,
}
use cloud_native_entry_task.GoLib.Errors.{Result, ok}
use cloud_native_entry_task.GoLib.Strings.{trim_space}
use cloud_native_entry_task.Service.Interfaces.{Service, SessionStore, IsSessionStore}
use cloud_native_entry_task.Service.Account.{logout, delete_login, require_user}
use cloud_native_entry_task.Service.Account.Sessions.{SessionAgrees, require_user_iff}

-- Without a session store, logging out does nothing.
pub logout_without_sessions :
    {W : Type 0} (s : Service W) (token : Bytes) (w : W)
    → s.sessions ≡ none
    → logout s token w ≡ (ok tt, w)
unfolding logout
logout_without_sessions s token w has = elim (Bool-cases (is_empty (trim_space token))) [
  | inl blank ↦ rw (blank, logout) refl
  | inr kept ↦ rw (kept, logout) (ap (λ st. delete_login s st token w) has)
]

module _ {W : Type 0} (s : Service W) (st : SessionStore W) (key : Bytes → Bytes)
    (session : W → Bytes → Result (Option ℕ)) (has : s.sessions ≡ some st)
    (laws : IsSessionStore st key session)
    (clock_keeps : (w : W) (t : Bytes) → session (s.host.clock w).1 t ≡ session w t) where
  -- What the token's session says, it says to `require_user`.
  require_user_session :
      (token : Bytes) (w w' : W) (id : ℕ)
      → require_user s token w ≡ (ok id, w')
      → session w token ≡ ok (some id)
  require_user_session token w w' id h =
      let (_, _, agrees) = (require_user_iff s token w w' id).0 h in
      let got = subst (λ o. SessionAgrees s o token id (s.host.clock w).1 w') has agrees in
      sym (clock_keeps w token) ∙ sym (laws.get token (s.host.clock w).1).0 ∙ ap (λ r. r.0) got

  logout_deletes :
      (token : Bytes) (w w' : W)
      → is_empty (trim_space token) ≡ false
      → logout s token w ≡ (ok tt, w')
      → st.delete_session token w ≡ (ok tt, w')
  unfolding logout
  logout_deletes token w w' kept out =
      subst (λ o. delete_login s o token w ≡ (ok tt, w')) has (rw (kept, logout) at out)

  -- With a session store, logging out that succeeds ends the session: in the world that it leaves,
  -- `requireUser` takes the token for no user's.
  pub logout_revokes :
      (token : Bytes) (w w' v : W) (id : ℕ)
      → logout s token w ≡ (ok tt, w')
      → require_user s token w' ≢ (ok id, v)
  logout_revokes token w w' v id out h =
      let (kept, _, _) = (require_user_iff s token w' v id).0 h in
      let gone : session w' token ≡ ok none =
        laws.delete token w w' (logout_deletes token w w' kept out) token
        ∙ rw (bytes_eq_refl (key token)) refl in
      cc (gone, require_user_session token w' v id h)
