-- ===== src/Service/Picture/ReadBack.antt =====
-- A picture that was uploaded is read back, from the cache or from its file.
use cloud_native_entry_task.Prelude.{
  ℕ, suc, ◌≤◌, ◌≡◌, refl, sym, ap, ◌∙◌, subst, ◌⊎◌, inl, inr, true, false, Option, none, some, List,
  [], ◌∷◌, ◌++◌, Bytes, length, is_empty, arith, Bool-cases, ◌==◌, ltb,
}
use cloud_native_entry_task.Prelude.Int.{ℤ}
use cloud_native_entry_task.GoLib.Base64.{std, encode, decode}
use cloud_native_entry_task.GoLib.Strings.{member, itoa, itoa_ℤ}
use cloud_native_entry_task.GoLib.Strings.Decimal.{itoa-is_empty}
use cloud_native_entry_task.GoLib.Errors.{ok, Result-cases}
use cloud_native_entry_task.GoLib.Exec.{pure, try, bind_ok, then_pure_world, ◌>>=◌}
use cloud_native_entry_task.Protocol.Messages
use cloud_native_entry_task.Protocol.Messages.{UploadProfilePictureBody}
use cloud_native_entry_task.Service.Interfaces.{Service, PictureCache}
use cloud_native_entry_task.Service.Account.{to_protocol_profile}
use cloud_native_entry_task.Service.Picture.{
  content_type_of, extension_for, store_picture, refresh_cache, upload_profile_picture,
  picture_result, read_picture, save_to_cache, cached_picture, picture_of, get_profile_picture,
  old_version,
}
use cloud_native_entry_task.Service.Picture.Upload.{upload_cases, UploadCases}
use cloud_native_entry_task.Store.Mysql.{UserProfile, NullString}

is_empty-append : (a b : Bytes) → is_empty a ≡ false → is_empty (a ++ b) ≡ false
unfolding is_empty
is_empty-append [] b h = absurd (cc)
is_empty-append (x ∷ a) b h = refl

-- A type that is allowed is not empty where the empty one is not.
is_empty_of_member :
    (x : Bytes) (allowed : List Bytes)
    → member [] allowed ≡ false
    → member x allowed ≡ true
    → is_empty x ≡ false
unfolding is_empty
is_empty_of_member [] allowed h e = absurd (cc)
is_empty_of_member (c ∷ x) allowed h e = refl

-- What there is in a world: the files, the rows of the users and the cached pictures.
pub record View (W : Type 0) : Type 0 where
  pub file : W → Bytes → Option Bytes
  pub row : W → ℕ → Option UserProfile
  pub cached : W → ℕ → ℕ → Option (Bytes × Bytes)

abbrev pub text_of : Bytes → NullString
text_of v = record { valid = true; string = v }

-- The path of a picture below the directory of the pictures.
abbrev pub relative_path : ℕ → ℤ → Bytes → Bytes
relative_path user_id t extension = itoa user_id ++ (b'/' ∷ (itoa_ℤ t ++ extension))

module _ {W : Type 0} (s : Service W) (v : View W) where
  -- What is relied on in a cache: a call changes no file and no row; a picture that is saved is cached
  -- or nothing has changed; a picture that is deleted is gone or nothing has changed.
  pub record IsCache (cache : PictureCache W) : Type 0 where
    pub gets : (id n : ℕ) (w : W) → (cache.get_profile_picture id n w).0 ≡ ok (v.cached w id n)
    pub gets_keep :
        (id n : ℕ) (w : W) (path : Bytes)
        → v.file (cache.get_profile_picture id n w).1 path ≡ v.file w path
    pub saves :
        (id n : ℕ) (mime content : Bytes) (w : W)
        → let w' = (cache.save_profile_picture id n mime content w).1 in
          ((path : Bytes) → v.file w' path ≡ v.file w path)
          × ((u : ℕ) → v.row w' u ≡ v.row w u)
          × ((v.cached w' id n ≡ some (mime, content)) ⊎ (v.cached w' id n ≡ v.cached w id n))
    pub deletes :
        (id n m : ℕ) (w : W)
        → let w' = (cache.delete_profile_picture id n w).1 in
          ((path : Bytes) → v.file w' path ≡ v.file w path)
          × ((u : ℕ) → v.row w' u ≡ v.row w u)
          × ((v.cached w' id m ≡ none) ⊎ (v.cached w' id m ≡ v.cached w id m))

  -- A user's row and cached pictures are as they were.
  abbrev pub SameUser : ℕ → W → W → Type 0
  SameUser id w w' = (v.row w' id ≡ v.row w id) × ((n : ℕ) → v.cached w' id n ≡ v.cached w id n)

  -- What is relied on in the clock, the file system, the user store and the cache, if there is one:
  -- what is there is read, the files are apart from the rows and the cache, and an update gives the
  -- row the next version and leaves the cache alone.
  pub record KeepsPictures : Type 0 where
    pub finds :
        (id : ℕ) (p : UserProfile) (w : W)
        → v.row w id ≡ some p
        → let r = s.store.get_user_profile_by_id id w in
          (r.0 ≡ ok p) × ((path : Bytes) → v.file r.1 path ≡ v.file w path) × SameUser id w r.1
    pub ticks : (id : ℕ) (w : W) → SameUser id w (s.host.clock w).1
    pub makes : (path : Bytes) (id : ℕ) (w : W) → SameUser id w (s.host.mkdir_all path w).1
    pub updates :
        (id : ℕ) (path mime : Bytes) (size : ℕ) (p : UserProfile) (w w' : W)
        → s.store.update_profile_picture id path mime size w ≡ (ok p, w')
        → (p.profile_picture_path ≡ text_of path)
          × (p.profile_picture_mime ≡ text_of mime)
          × ((old : UserProfile)
              → v.row w id ≡ some old
              → p.profile_version ≡ suc old.profile_version)
          × (v.row w' id ≡ some p)
          × ((path : Bytes) → v.file w' path ≡ v.file w path)
          × ((n : ℕ) → v.cached w' id n ≡ v.cached w id n)
    pub writes_apart :
        (path content : Bytes) (id : ℕ) (w : W) → SameUser id w (s.host.write_file path content w).1
    pub writes :
        (path content : Bytes) (w w' : W)
        → s.host.write_file path content w ≡ (ok tt, w')
        → v.file w' path ≡ some content
    pub reads :
        (path content : Bytes) (w : W)
        → v.file w path ≡ some content
        → (s.host.read_file path w).0 ≡ ok content
    pub cleans :
        (id : ℕ) (t : ℤ) (content_type file_name : Bytes)
        → let path = relative_path id t (extension_for s content_type file_name) in
          s.host.file_clean path ≡ path
    pub caches : (cache : PictureCache W) → s.picture_cache ≡ some cache → IsCache cache

  -- A world in which a user's picture is as it was uploaded.
  pub record HasPicture (user_id : ℕ) (path mime content : Bytes) (p : UserProfile) (w : W)
      : Type 0 where
    pub path_is : p.profile_picture_path ≡ text_of path
    pub mime_is : p.profile_picture_mime ≡ text_of mime
    pub version : 1 ≤ p.profile_version
    pub row_is : v.row w user_id ≡ some p
    pub file_is : v.file w (s.host.file_join s.upload_dir path) ≡ some content
    pub cached_is :
        (v.cached w user_id p.profile_version ≡ none)
        ⊎ (v.cached w user_id p.profile_version ≡ some (mime, content))

  module _ (laws : KeepsPictures) (user_id : ℕ) (path mime content : Bytes) (p : UserProfile)
      (path_is : p.profile_picture_path ≡ text_of path)
      (mime_is : p.profile_picture_mime ≡ text_of mime) (version : 1 ≤ p.profile_version)
      (named : is_empty path ≡ false) (typed : is_empty mime ≡ false)
      (clean : s.host.file_clean path ≡ path) where
    abbrev Stored : W → Type 0
    Stored w = v.file w (s.host.file_join s.upload_dir path) ≡ some content

    from_file :
        (w : W) → Stored w → (read_picture s user_id p w).0 ≡ ok (picture_result s mime content)
    unfolding read_picture save_to_cache
    from_file w stored = from_file_lem s.picture_cache refl
      where
        from_file_lem :
            (o : Option (PictureCache W))
            → s.picture_cache ≡ o
            → (read_picture s user_id p w).0 ≡ ok (picture_result s mime content)
        from_file_lem none e =
            rw
              (
                path_is,
                clean,
                mime_is,
                typed,
                e,
                try,
                laws.reads (s.host.file_join s.upload_dir path) content w stored,
              )
              refl
        from_file_lem (some cache) e =
            rw
              (
                path_is,
                clean,
                mime_is,
                typed,
                e,
                try,
                laws.reads (s.host.file_join s.upload_dir path) content w stored,
              )
              refl

    abbrev CachedIs : W → Type 0
    CachedIs w =
        (v.cached w user_id p.profile_version ≡ none)
        ⊎ (v.cached w user_id p.profile_version ≡ some (mime, content))

    found :
        (w : W)
        → Stored w
        → CachedIs w
        → (picture_of s user_id p w).0 ≡ ok (picture_result s mime content)
    unfolding picture_of cached_picture
    found w stored cached_is =
        let newer : (p.profile_version == 0) ≡ false = ground (arith, version) in
        rw (path_is, named, newer, picture_of) (found_lem s.picture_cache refl)
      where
        found_lem :
            (o : Option (PictureCache W))
            → s.picture_cache ≡ o
            → ((cached_picture s s.picture_cache user_id p.profile_version >>= λ cached.
                  elim cached [
                    | some (mime_type, content) ↦ pure (picture_result s mime_type content)
                    | none ↦ read_picture s user_id p
                  ])
                w).0
              ≡ ok (picture_result s mime content)
        found_lem none e = rw (e, ◌>>=◌) (from_file w stored)
        found_lem (some cache) e =
            let c = laws.caches cache e in
            let w' = (cache.get_profile_picture user_id p.profile_version w).1 in
            let kept =
              c.gets_keep user_id p.profile_version w (s.host.file_join s.upload_dir path) in
            elim cached_is [
              | inl absent ↦
                  rw (e, ◌>>=◌, c.gets user_id p.profile_version w, absent)
                    (from_file w' (kept ∙ stored))
              | inr present ↦ rw (e, ◌>>=◌, c.gets user_id p.profile_version w, present) refl
            ]

    -- Reading a picture that is there gives it.
    reads_back :
        (w : W)
        → v.row w user_id ≡ some p
        → Stored w
        → CachedIs w
        → (get_profile_picture s user_id w).0 ≡ ok (picture_result s mime content)
    unfolding get_profile_picture
    reads_back w row_is stored cached_is =
        let (got, files, (_, caches)) = laws.finds user_id p w row_is in
        let w' = (s.store.get_user_profile_by_id user_id w).1 in
        rw (got, try)
          (found w' (files (s.host.file_join s.upload_dir path) ∙ stored) (
            subst (λ o. (o ≡ none) ⊎ (o ≡ some (mime, content))) (sym (caches p.profile_version))
              cached_is))

    saved :
        (cache : PictureCache W) (c : IsCache cache) (w : W)
        → v.row w user_id ≡ some p
        → Stored w
        → v.cached w user_id p.profile_version ≡ none
        → let w' = (cache.save_profile_picture user_id p.profile_version mime content w).1 in
          (v.row w' user_id ≡ some p) × Stored w' × CachedIs w'
    saved cache c w row_is stored fresh =
        let (files, rows, cached) = c.saves user_id p.profile_version mime content w in
        (
          rows user_id ∙ row_is,
          files (s.host.file_join s.upload_dir path) ∙ stored,
          elim cached [ inl kept ↦ inr kept | inr same ↦ inl (same ∙ fresh) ],
        )

    -- What `refresh_cache` leaves after an update.
    refreshed :
        (w : W) (old : ℕ)
        → v.row w user_id ≡ some p
        → Stored w
        → v.cached w user_id p.profile_version ≡ none
        → let w' = (refresh_cache s s.picture_cache user_id old p mime content w).1 in
          (v.row w' user_id ≡ some p) × Stored w' × CachedIs w'
    unfolding refresh_cache
    refreshed w old row_is stored fresh = refreshed_lem s.picture_cache refl
      where
        refreshed_lem :
            (o : Option (PictureCache W))
            → s.picture_cache ≡ o
            → let w' = (refresh_cache s o user_id old p mime content w).1 in
              (v.row w' user_id ≡ some p) × Stored w' × CachedIs w'
        refreshed_lem none e = (row_is, stored, inl fresh)
        refreshed_lem (some cache) e =
            let c = laws.caches cache e in
            let at = s.host.file_join s.upload_dir path in
            elim (Bool-cases (ltb 0 old)) [
              | inr first ↦ rw first (saved cache c w row_is stored fresh)
              | inl later ↦
                  let (files, rows, cached) = c.deletes user_id old p.profile_version w in
                  rw later (
                    saved cache c (cache.delete_profile_picture user_id old w).1
                      (rows user_id ∙ row_is) (files at ∙ stored)
                      (elim cached [ inl gone ↦ gone | inr same ↦ same ∙ fresh ]))
            ]

  -- A user's row, with no picture cached under the version after its own.
  abbrev pub IsUncached : ℕ → UserProfile → W → Type 0
  IsUncached id old w = (v.row w id ≡ some old) × (v.cached w id (suc old.profile_version) ≡ none)

  still-IsUncached :
      (id : ℕ) (old : UserProfile) (w w' : W)
      → SameUser id w w'
      → IsUncached id old w
      → IsUncached id old w'
  still-IsUncached id old w w' (row, cached) (row_is, fresh) =
      (row ∙ row_is, cached (suc old.profile_version) ∙ fresh)

  module _ (laws : KeepsPictures) where
    stored_lem :
        (user_id : ℕ) (t : ℤ) (content_type file_name content : Bytes) (w w' : W)
        (prof : Messages.UserProfile) (p0 : UserProfile)
        → is_empty content_type ≡ false
        → IsUncached user_id p0 w
        → store_picture s user_id content_type content t (extension_for s content_type file_name) w
          ≡ (ok prof, w')
        → (get_profile_picture s user_id w').0 ≡ ok (picture_result s content_type content)
    unfolding store_picture
    stored_lem user_id t content_type file_name content w w' prof p0 typed uncached h =
        let extension = extension_for s content_type file_name in
        let rel_path = relative_path user_id t extension in
        let abs_path = s.host.file_join s.upload_dir rel_path in
        let size = length content in
        let old = old_version (s.store.get_user_profile_by_id user_id w).0 in
        let w0 = (s.store.get_user_profile_by_id user_id w).1 in
        let (_, w1, made, h1) =
          bind_ok (s.host.mkdir_all (s.host.file_dir abs_path)) _ w0 w' prof h in
        let (_, w2, written, h2) = bind_ok (s.host.write_file abs_path content) _ w1 w' prof h1 in
        let (_, _, looked) = laws.finds user_id p0 w uncached.0 in
        let uncached2 =
          still-IsUncached user_id p0 w1 w2
            (subst (SameUser user_id w1) (ap (λ r. r.1) written)
              (laws.writes_apart abs_path content user_id w1))
            (still-IsUncached user_id p0 w0 w1
              (subst (SameUser user_id w0) (ap (λ r. r.1) made)
                (laws.makes (s.host.file_dir abs_path) user_id w0))
              (still-IsUncached user_id p0 w w0 looked uncached)) in
        let update = s.store.update_profile_picture user_id rel_path content_type size in
        elim (Result-cases (update w2).0) [
          | inr (e, refused) ↦ absurd (cc (rw (refused, try) at h2))
          | inl (p, updated) ↦
              let w3 = (update w2).1 in
              let (path_is, mime_is, next, row_is, files, caches) =
                laws.updates user_id rel_path content_type size p w2 w3
                  (ap (λ r. (r, w3)) updated) in
              let version_is : p.profile_version ≡ suc p0.profile_version = next p0 uncached2.0 in
              let version : 1 ≤ p.profile_version = omega arith in
              let fresh : v.cached w3 user_id p.profile_version ≡ none =
                caches p.profile_version ∙ ap (v.cached w2 user_id) version_is ∙ uncached2.1 in
              let named : is_empty rel_path ≡ false =
                is_empty-append (itoa user_id) (b'/' ∷ (itoa_ℤ t ++ extension))
                  (itoa-is_empty user_id) in
              let clean = laws.cleans user_id t content_type file_name in
              let stored = files abs_path ∙ laws.writes abs_path content w1 w2 written in
              let refresh = refresh_cache s s.picture_cache user_id old p content_type content in
              let last : (refresh w3).1 ≡ w' =
                then_pure_world refresh (to_protocol_profile s p) prof w3 w'
                  (rw (updated, try) at h2) in
              let (row', stored', cached') =
                refreshed laws user_id rel_path content_type content p path_is mime_is version named
                  typed clean w3 old row_is stored fresh in
              subst
                (λ x.
                  (get_profile_picture s user_id x).0 ≡ ok (picture_result s content_type content))
                last
                (reads_back laws user_id rel_path content_type content p path_is mime_is version
                  named typed clean _ row' stored' cached')
        ]

    -- With a file system, a user store and a cache that answer, and keep what they are given: after an
    -- upload that succeeds, reading the picture gives back the bytes that were uploaded, under the
    -- type that they were taken for, if no empty type is allowed, and if before the upload the user
    -- had a row and no picture was cached under the version after that row's.
    pub upload_read_back :
        (body : UploadProfilePictureBody) (user_id : ℕ) (w w' : W) (prof : Messages.UserProfile)
        (old : UserProfile)
        → IsUncached user_id old w
        → member [] s.allowed_mimes ≡ false
        → upload_profile_picture s user_id body w ≡ (ok prof, w')
        → (content : Bytes) × (decode std body.data_base64 ≡ some content)
          × ((get_profile_picture s user_id w').0
              ≡ ok (record {
                content_type = content_type_of s body (s.host.detect_content_type content);
                data_base64 = encode std content;
              }))
    unfolding UploadCases
    upload_read_back body user_id w w' prof old uncached no_empty h =
        elim (upload_cases s body user_id w) [
          | inr (_, refused) ↦ absurd (cc)
          | inl (content, taken, accepted) ↦
              let content_type = content_type_of s body (s.host.detect_content_type content) in
              (
                content,
                taken.decodes,
                stored_lem user_id (s.host.clock w).0 content_type body.file_name content
                    (s.host.clock w).1 w' prof old
                    (is_empty_of_member content_type s.allowed_mimes no_empty taken.allowed)
                    (still-IsUncached user_id old w (s.host.clock w).1 (laws.ticks user_id w)
                      uncached)
                    (sym accepted ∙ h),
              )
        ]
