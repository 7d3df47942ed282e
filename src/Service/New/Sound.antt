-- ===== src/Service/New/Sound.antt =====
-- When a service is made, and what it is like.
use mathlib.Core.List.{reverse, reverse-reverse, reverse-append}
use cloud_native_entry_task.Prelude.{
  subst, is_empty, ℕ, ◌≤◌, ◌≡◌, ◌≢◌, ◌↔◌, refl, sym, ap, ◌∙◌, ◌⊎◌, inl, inr, true, false,
  Bool-cases, Option, [], ◌∷◌, ◌++◌, Bytes, arith, length,
}
use cloud_native_entry_task.GoLib.Errors.{Result, ok, Result-cases}
use cloud_native_entry_task.GoLib.Strings.{drop_while_eq, trim_right}
use cloud_native_entry_task.Config.{is_abs, profile_picture_dir_abs}
use cloud_native_entry_task.Config.Types.{Config}
use cloud_native_entry_task.Service.Interfaces.{Host, UserStore, Service}
use cloud_native_entry_task.Service.Token.{TokenManager, new_token_manager, decoded}
use cloud_native_entry_task.Service.Token.Secret.{new_token_manager_iff}
use cloud_native_entry_task.Service.New.{Options, service_of, new}

drop_while_eq_head : (s : Bytes) (cut c : ℕ) (t : Bytes) → drop_while_eq cut s ≡ c ∷ t → c ≢ cut
unfolding drop_while_eq
drop_while_eq_head [] cut c t h = absurd (cc)
drop_while_eq_head (x ∷ s) cut c t h = ground (arith, drop_while_eq_head s cut c t)

-- What is trimmed on the right does not end with the cut byte.
trim_right_end :
    (s : Bytes) (cut : ℕ) (a : Bytes) (c : ℕ) → trim_right s cut ≡ a ++ c ∷ [] → c ≢ cut
unfolding trim_right
trim_right_end s cut a c h =
    drop_while_eq_head (reverse s) cut c (reverse a)
      (sym (reverse-reverse _) ∙ ap reverse h ∙ reverse-append a (c ∷ []))

module _ {W : Type 0} (host : Host W) (decode_hex : Bytes → Option Bytes) (getwd : Result Bytes)
    (store : UserStore W) (cfg : Config) (options : Options W) where
  abbrev pub managed_by : Result TokenManager
  managed_by = new_token_manager decode_hex cfg.security.token_secret cfg.security.session_ttl

  abbrev pub kept_in : Result Bytes
  kept_in = profile_picture_dir_abs getwd host.file_join cfg

  pub new_ok :
      (s : Service W)
      → new host decode_hex getwd store cfg options ≡ ok s
      → (m : TokenManager) × (dir : Bytes) × (managed_by ≡ ok m)
        × (kept_in ≡ ok dir)
        × (s ≡ service_of host decode_hex getwd store cfg options m dir)
  unfolding new
  new_ok s h = elim (Result-cases managed_by) [
    | inr (e, failed) ↦ absurd (cc (rw (failed, new) at h))
    | inl (m, managed) ↦ elim (Result-cases kept_in) [
      | inr (e, failed) ↦ absurd (cc (rw (managed, failed, new) at h))
      | inl (dir, found) ↦
          let same : ok s ≡ ok (service_of host decode_hex getwd store cfg options m dir) =
            sym (rw (managed, found, new) at h) in
          (m, dir, managed, found, cc)
    ]
  ]

  -- There is a directory to keep pictures in.
  abbrev pub HasDirectory : Type 0
  HasDirectory = (is_abs cfg.upload.profile_picture_dir ≡ true) ⊎ ((wd : Bytes) × (getwd ≡ ok wd))

  directory_ok : (dir : Bytes) → kept_in ≡ ok dir → HasDirectory
  unfolding profile_picture_dir_abs
  directory_ok dir h = elim (Bool-cases (is_abs cfg.upload.profile_picture_dir)) [
    | inl absolute ↦ inl absolute
    | inr relative ↦ elim (Result-cases getwd) [
      | inl wd ↦ inr wd
      | inr (e, failed) ↦ absurd (cc (rw (relative, failed, profile_picture_dir_abs) at h))
    ]
  ]

  directory_found : HasDirectory → (dir : Bytes) × (kept_in ≡ ok dir)
  unfolding profile_picture_dir_abs
  directory_found (inl absolute) =
      (cfg.upload.profile_picture_dir, rw (absolute, profile_picture_dir_abs) refl)
  directory_found (inr (wd, found)) = elim (Bool-cases (is_abs cfg.upload.profile_picture_dir)) [
    | inl absolute ↦ (cfg.upload.profile_picture_dir, rw (absolute, profile_picture_dir_abs) refl)
    | inr relative ↦ (
      host.file_join wd cfg.upload.profile_picture_dir,
      rw (relative, found, profile_picture_dir_abs) refl,
    )
  ]

  -- A service is made exactly if the token secret is not empty and stands for at least 32 bytes, and
  -- the directory of the pictures is absolute or the working directory is known.
  pub new_iff : ((s : Service W) × (new host decode_hex getwd store cfg options ≡ ok s)) ↔ (
      (is_empty cfg.security.token_secret ≡ false)
      × (32 ≤ length (decoded decode_hex cfg.security.token_secret))
      × HasDirectory)
  unfolding new
  new_iff = (
    (λ (s, h).
        let (m, dir, managed, found, _) = new_ok s h in
        let (given, long, _, _) =
          (new_token_manager_iff decode_hex cfg.security.token_secret cfg.security.session_ttl m).0
            managed in
        (given, long, directory_ok dir found)),
    (λ (given, long, has).
        let (dir, found) = directory_found has in
        let m : TokenManager = record {
          secret = decoded decode_hex cfg.security.token_secret;
          ttl = cfg.security.session_ttl;
        } in
        let managed : managed_by ≡ ok m =
          (new_token_manager_iff decode_hex cfg.security.token_secret cfg.security.session_ttl m).1
            (given, long, refl, refl) in
        (service_of host decode_hex getwd store cfg options m dir, rw (managed, found, new) refl)),
  )

  directory-is_abs :
      (dir : Bytes)
      → ((wd : Bytes) → getwd ≡ ok wd → is_abs wd ≡ true)
      → ((wd rest : Bytes) → is_abs wd ≡ true → is_abs (host.file_join wd rest) ≡ true)
      → kept_in ≡ ok dir
      → is_abs dir ≡ true
  unfolding profile_picture_dir_abs
  directory-is_abs dir wds joins h = elim (Bool-cases (is_abs cfg.upload.profile_picture_dir)) [
    | inl absolute ↦ cc (absolute, rw (absolute, profile_picture_dir_abs) at h)
    | inr relative ↦ elim (Result-cases getwd) [
      | inr (e, failed) ↦ absurd (cc (rw (relative, failed, profile_picture_dir_abs) at h))
      | inl (wd, found) ↦
          let same : ok (host.file_join wd cfg.upload.profile_picture_dir) ≡ ok dir =
            rw (relative, found, profile_picture_dir_abs) at h in
          cc (joins wd cfg.upload.profile_picture_dir (wds wd found))
    ]
  ]

  -- A service that is made signs with at least 32 bytes, writes below an absolute directory if the
  -- working directory is one and joining keeps it so, links to pictures without a slash at the end,
  -- and has the stores that it was given.
  pub new_sound :
      (s : Service W)
      → ((wd : Bytes) → getwd ≡ ok wd → is_abs wd ≡ true)
      → ((wd rest : Bytes) → is_abs wd ≡ true → is_abs (host.file_join wd rest) ≡ true)
      → new host decode_hex getwd store cfg options ≡ ok s
      → (32 ≤ length s.tokens.secret)
        × (is_abs s.upload_dir ≡ true)
        × ((a : Bytes) (c : ℕ) → s.profile_picture_base_url ≡ a ++ c ∷ [] → c ≢ b'/')
        × (s.store ≡ store)
        × (s.sessions ≡ options.sessions)
        × (s.picture_cache ≡ options.picture_cache)
  unfolding service_of
  new_sound s wds joins h =
      let (m, dir, managed, found, same) = new_ok s h in
      let (_, long, secret, _) =
        (new_token_manager_iff decode_hex cfg.security.token_secret cfg.security.session_ttl m).0
          managed in
      rw same (
        subst (λ v. 32 ≤ length v) (sym secret) long,
        directory-is_abs dir wds joins found,
        (λ a c e. trim_right_end cfg.http.profile_picture_base_url b'/' a c e),
        refl,
        refl,
        refl,
      )
