-- ===== src/Service/Picture.antt =====
-- internal/service/service.go: uploading a profile picture and reading it back.
pub mod Upload
pub mod ReadBack
mod Tests
use cloud_native_entry_task.Prelude.{
  ℕ, ◌+◌, Bool, true, false, not, ◌&&◌, ◌||◌, Option, none, some, List, [], ◌∷◌, ◌++◌, Bytes,
  length, codes, ltb, ◌==◌, if◌then◌else◌, is_empty, bytes_eq,
}
use cloud_native_entry_task.Prelude.Int.{ℤ, pos, leb_ℤ}
use cloud_native_entry_task.GoLib.Base64.{std, encode, decode}
use cloud_native_entry_task.GoLib.Strings.{
  trim_space, first_part, to_lower, ext, itoa, itoa_ℤ, member,
}
use cloud_native_entry_task.Protocol.Messages
use cloud_native_entry_task.Protocol.Messages.{UploadProfilePictureBody, ProfilePictureResult}
use cloud_native_entry_task.GoLib.Errors.{
  Error, bad_request, not_found, payload_too_large, unsupported_type, app_error, is_not_exist,
  Result, ok, err,
}
use cloud_native_entry_task.GoLib.Exec.{Exec, pure, raise, lift, ignore, try, ◌>>=◌, ◌>>◌}
use cloud_native_entry_task.Service.Interfaces.{PictureCache, Service, now}
use cloud_native_entry_task.Service.Account.{has_picture, or_not_found, to_protocol_profile}
use cloud_native_entry_task.Store.Mysql.{UserProfile, NullString}

abbrev pub invalid_upload : Error
invalid_upload = app_error "invalid_upload" "Uploaded file is not valid base64." bad_request

abbrev pub octet_stream : Bytes
octet_stream = codes "application/octet-stream"

abbrev pub known_extensions : List Bytes
known_extensions = codes ".jpg" ∷ codes ".jpeg" ∷ codes ".png" ∷ codes ".webp" ∷ codes ".gif" ∷ []

-- The name's own extension, if it is a known one.
fallback_extension : Bytes → Bytes
fallback_extension extension = if member extension known_extensions then extension else codes ".bin"

first_extension : Option (List Bytes) → Bytes → Bytes
first_extension (some (e ∷ more)) file_name = e
first_extension (some []) file_name = fallback_extension (to_lower (ext file_name))
first_extension none file_name = fallback_extension (to_lower (ext file_name))

-- The zero profile's version where the profile was not read.
abbrev pub old_version : Result UserProfile → ℕ
old_version (ok profile) = profile.profile_version
old_version (err e) = 0

module _ {W : Type 0} (s : Service W) where
  unfoldable pub extension_for : Bytes → Bytes → Bytes
  unfolding first_extension fallback_extension
  extension_for content_type file_name =
      first_extension (s.host.extensions_by_type content_type) file_name

  unfoldable pub content_type_of : UploadProfilePictureBody → Bytes → Bytes
  content_type_of body detected =
      let content_type = trim_space (first_part b';' body.content_type) in
      if is_empty content_type then detected else content_type

  unfoldable pub is_supported : Bytes → Bytes → Bool
  is_supported content_type detected =
      member content_type s.allowed_mimes
      && (bytes_eq detected octet_stream || member detected s.allowed_mimes)

  -- The cached picture of the version before is dropped, and the new one is put in its place;
  -- errors of the cache are dropped.
  refresh_cache : Option (PictureCache W) → ℕ → ℕ → UserProfile → Bytes → Bytes → Exec W (Unit {0})
  refresh_cache none user_id old profile content_type content = pure tt
  refresh_cache (some cache) user_id old profile content_type content = do
    if ltb 0 old then ignore (cache.delete_profile_picture user_id old) else pure tt
    ignore (cache.save_profile_picture user_id profile.profile_version content_type content)

  pub store_picture : ℕ → Bytes → Bytes → ℤ → Bytes → Exec W Messages.UserProfile
  store_picture user_id content_type content t extension =
      let rel_path = itoa user_id ++ (b'/' ∷ (itoa_ℤ t ++ extension)) in
      let abs_path = s.host.file_join s.upload_dir rel_path in
      do
        old ←
            λ w. let (r, w') = s.store.get_user_profile_by_id user_id w in (ok (old_version r), w')
        s.host.mkdir_all (s.host.file_dir abs_path)
        s.host.write_file abs_path content
        try (s.store.update_profile_picture user_id rel_path content_type (length content))
            (λ e. do ignore (s.host.remove abs_path); raise (or_not_found e))
            (λ profile. do
              refresh_cache s.picture_cache user_id old profile content_type content
              pure (to_protocol_profile s profile))

  accept_upload : ℕ → UploadProfilePictureBody → Bytes → Exec W Messages.UserProfile
  accept_upload user_id body content =
      let detected = s.host.detect_content_type content in
      let content_type = content_type_of body detected in
      if leb_ℤ (pos (length content)) s.max_upload_bytes
      then (if is_supported content_type detected
          then (do
            t ← now s.host
            store_picture user_id content_type content t
                (extension_for content_type body.file_name))
          else raise unsupported_type)
      else raise payload_too_large

  pub upload_profile_picture : ℕ → UploadProfilePictureBody → Exec W Messages.UserProfile
  upload_profile_picture user_id body = elim (decode std body.data_base64) [
    | none ↦ raise invalid_upload
    | some content ↦ accept_upload user_id body content
  ]

  abbrev picture_result : Bytes → Bytes → ProfilePictureResult
  picture_result mime_type content = record {
    content_type = mime_type;
    data_base64 = encode std content;
  }

  abbrev mime_of : NullString → Bytes
  mime_of mime = if has_picture mime then mime.string else octet_stream

  save_to_cache : Option (PictureCache W) → ℕ → ℕ → Bytes → Bytes → Exec W (Unit {0})
  save_to_cache none user_id version mime_type content = pure tt
  save_to_cache (some cache) user_id version mime_type content =
      ignore (cache.save_profile_picture user_id version mime_type content)

  read_picture : ℕ → UserProfile → Exec W ProfilePictureResult
  read_picture user_id profile =
      let abs_path =
        s.host.file_join s.upload_dir (s.host.file_clean profile.profile_picture_path.string) in
      let mime_type = mime_of profile.profile_picture_mime in
      try (s.host.read_file abs_path) (λ e. raise (if is_not_exist e then not_found else e))
        (λ content. do
          save_to_cache s.picture_cache user_id profile.profile_version mime_type content
          pure (picture_result mime_type content))

  cached_picture : Option (PictureCache W) → ℕ → ℕ → Exec W (Option (Bytes × Bytes))
  cached_picture none user_id version = pure none
  cached_picture (some cache) user_id version = cache.get_profile_picture user_id version

  picture_of : ℕ → UserProfile → Exec W ProfilePictureResult
  picture_of user_id profile =
      if not (has_picture profile.profile_picture_path) || (profile.profile_version == 0)
      then raise not_found
      else do
        cached ← cached_picture s.picture_cache user_id profile.profile_version
        elim cached [
          | some (mime_type, content) ↦ pure (picture_result mime_type content)
          | none ↦ read_picture user_id profile
        ]

  unfoldable pub get_profile_picture : ℕ → Exec W ProfilePictureResult
  unfolding picture_of read_picture save_to_cache cached_picture
  get_profile_picture user_id =
      try (s.store.get_user_profile_by_id user_id) (λ e. raise (or_not_found e))
        (picture_of user_id)
