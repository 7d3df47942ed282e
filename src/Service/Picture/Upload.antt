-- ===== src/Service/Picture/Upload.antt =====
-- Which uploads are taken, and that a failed one leaves no file.
use cloud_native_entry_task.Prelude.{
  ℕ, ◌≡◌, ◌⊎◌, inl, inr, true, false, none, some, Bytes, length, bytes_eq_sound, bytes_eq_refl,
  arith, if◌then◌else◌, Bool-cases, Option-cases,
}
use cloud_native_entry_task.Prelude.Int.{pos, leb_ℤ}
use cloud_native_entry_task.GoLib.Base64.{std, decode}
use cloud_native_entry_task.GoLib.Strings.{member}
use cloud_native_entry_task.Protocol.Messages.{UploadProfilePictureBody}
use cloud_native_entry_task.GoLib.Errors.{err, payload_too_large, unsupported_type}
use cloud_native_entry_task.Service.Interfaces.{Service}
use cloud_native_entry_task.Service.Picture.{
  octet_stream, invalid_upload, extension_for, content_type_of, is_supported, store_picture,
  accept_upload, upload_profile_picture,
}

module _ {W : Type 0} (s : Service W) where
  -- What holds of a picture that is taken: its size is within the limit, and its type as declared
  -- (or detected, if none is) is allowed; so is the detected type, unless nothing was detected.
  pub record IsTaken (body : UploadProfilePictureBody) (content : Bytes) : Type 0 where
    pub decodes : decode std body.data_base64 ≡ some content
    pub small : leb_ℤ (pos (length content)) s.max_upload_bytes ≡ true
    pub allowed :
        member (content_type_of s body (s.host.detect_content_type content)) s.allowed_mimes ≡ true
    pub genuine :
        (s.host.detect_content_type content ≡ octet_stream)
        ⊎ (member (s.host.detect_content_type content) s.allowed_mimes ≡ true)

  abbrev taken_type : UploadProfilePictureBody → Bytes → Bytes
  taken_type body content = content_type_of s body (s.host.detect_content_type content)

  is_supported_sound :
      (content_type detected : Bytes)
      → is_supported s content_type detected ≡ true
      → (member content_type s.allowed_mimes ≡ true)
        × ((detected ≡ octet_stream) ⊎ (member detected s.allowed_mimes ≡ true))
  unfolding is_supported
  is_supported_sound content_type detected h = ground (arith, bytes_eq_sound detected octet_stream)

  is_supported_complete :
      (content_type detected : Bytes)
      → member content_type s.allowed_mimes ≡ true
      → (detected ≡ octet_stream) ⊎ (member detected s.allowed_mimes ≡ true)
      → is_supported s content_type detected ≡ true
  unfolding is_supported
  is_supported_complete content_type detected a (inl e) = rw (a, e, bytes_eq_refl octet_stream)
  is_supported_complete content_type detected a (inr g) = rw (a, g) (ground arith)

  -- The two outcomes of an upload.
  unfoldable pub UploadCases : UploadProfilePictureBody → ℕ → W → Type 0
  UploadCases body user_id w =
      ((content : Bytes) × IsTaken body content
        × (upload_profile_picture s user_id body w
            ≡ store_picture s user_id (taken_type body content) content (s.host.clock w).0
                (extension_for s (taken_type body content) body.file_name) (s.host.clock w).1))
      ⊎ (((content : Bytes) → ¬ IsTaken body content)
          × (upload_profile_picture s user_id body w ≡ (
            err (elim (decode std body.data_base64) [
              | none ↦ invalid_upload
              | some content ↦
                  if leb_ℤ (pos (length content)) s.max_upload_bytes
                  then unsupported_type
                  else payload_too_large
            ]),
            w,
          )))

  not_supported :
      (body : UploadProfilePictureBody) (c content : Bytes)
      → IsTaken body c
      → decode std body.data_base64 ≡ some content
      → is_supported s (taken_type body content) (s.host.detect_content_type content) ≡ false
      → ⊥
  not_supported body c content t d h = cc (
    is_supported_complete (taken_type body c) (s.host.detect_content_type c) t.allowed t.genuine,
    t.decodes,
    d,
    h,
  )

  accept_cases :
      (body : UploadProfilePictureBody) (user_id : ℕ) (w : W) (content : Bytes)
      → decode std body.data_base64 ≡ some content
      → UploadCases body user_id w
  unfolding UploadCases
  accept_cases body user_id w content d =
      let detected = s.host.detect_content_type content in
      elim (Bool-cases (leb_ℤ (pos (length content)) s.max_upload_bytes)) [
        | inr big ↦ inr (
          λ c t. cc (t.small, t.decodes, d, big),
          unfold upload_profile_picture accept_upload in rw (d, upload_profile_picture, big),
        )
        | inl small ↦ elim (Bool-cases (is_supported s (taken_type body content) detected)) [
          | inl yes_supported ↦
              let (a, g) = is_supported_sound (taken_type body content) detected yes_supported in
              inl (
                content,
                record { decodes = d; small = small; allowed = a; genuine = g },
                unfold upload_profile_picture accept_upload in
                    rw (d, upload_profile_picture, small, yes_supported),
              )
          | inr unsupported ↦ inr (
            λ c t. not_supported body c content t d unsupported,
            unfold upload_profile_picture accept_upload in
                rw (d, upload_profile_picture, small, unsupported),
          )
        ]
      ]

  -- Either the picture is taken, and stored at the time of the call under its type, or it is
  -- refused for its encoding, its size or its type, in this order, and the world is as it was.
  pub upload_cases :
      (body : UploadProfilePictureBody) (user_id : ℕ) (w : W) → UploadCases body user_id w
  upload_cases body user_id w = elim (Option-cases (decode std body.data_base64)) [
    | inr (content, d) ↦ accept_cases body user_id w content d
    | inl d ↦
        unfold UploadCases in
        inr (
          λ c t. cc (t.decodes, d),
          rw d (unfold upload_profile_picture in rw (d, upload_profile_picture)),
        )
  ]
