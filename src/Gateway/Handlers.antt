-- ===== src/Gateway/Handlers.antt =====
-- internal/httpapi/server.go: the routes and their handlers.
--
-- A handler writes one response. It reads at most `max_body_bytes` of the request's body.
use cloud_native_entry_task.Prelude.{
  Option, none, some, List, [], ◌∷◌, Bytes, String, codes, if◌then◌else◌, is_empty,
}
use cloud_native_entry_task.Config.Types.{HttpConfig}
use cloud_native_entry_task.Protocol.Messages.{
  op_login, op_get_profile, op_get_profile_picture, op_update_nickname, op_upload_profile_picture,
  op_logout,
}
use cloud_native_entry_task.Gateway.Http.{UploadedFile, HttpRequest, HttpResponse, WebCodec}
use cloud_native_entry_task.Gateway.Client.{
  TcpClient, Gate, Backend, RequestCodec, Target, CallResult, done, failed, call_within,
}
use cloud_native_entry_task.Gateway.Status.{status_bad_request}
use cloud_native_entry_task.Gateway.Responses.{
  Upload, accepted, rejected, write_protocol_error, write_error, unauthenticated, token_from_cookie,
  limited_body, bad_json_body, upload_body, cleared_cookie, login_response, picture_response,
  profile_response, ok_response, to_login, to_profile, to_picture, nowhere,
}

module _ (cfg : HttpConfig) (web : WebCodec) {W : Type 0} (backend : Backend W)
    (json : RequestCodec) (client : TcpClient) where
  abbrev pub Handler : Type 0
  Handler = HttpRequest → Gate W → HttpResponse × Gate W

  -- A failed call is answered with its error.
  unfoldable pub reply_with :
      {A : Type 0} → (A → HttpResponse) → CallResult A × Gate W → HttpResponse × Gate W
  reply_with f (done a, g) = (f a, g)
  reply_with f (failed e, g) = ((write_error cfg web) e, g)

  abbrev send :
      {A : Type 0}
      → Target A
      → HttpRequest
      → String
      → Bytes
      → Bytes
      → Gate W
      → CallResult A × Gate W
  send out r = call_within backend json client out r.remaining

  -- Without a token the handler answers at once.
  unfoldable pub with_token :
      HttpRequest → (Bytes → Gate W → HttpResponse × Gate W) → Gate W → HttpResponse × Gate W
  with_token r f g = elim (token_from_cookie cfg web r) [
    | none ↦ ((unauthenticated cfg web), g)
    | some token ↦ f token g
  ]

  pub health : Handler
  health r g = ((ok_response cfg web), g)

  unfoldable pub login : Handler
  login r g = elim (web.decode_login ((limited_body cfg web) r)) [
    | none ↦ ((bad_json_body cfg web), g)
    | some body ↦
        reply_with (login_response cfg web)
          (send (to_login cfg web) r op_login [] (web.marshal_login body) g)
  ]

  unfoldable pub me : Handler
  me r = with_token r (λ token g.
      reply_with (profile_response cfg web) (send (to_profile cfg web) r op_get_profile token [] g))

  unfoldable pub update_nickname : Handler
  update_nickname r = with_token r (λ token g.
      elim (web.decode_nickname ((limited_body cfg web) r)) [
        | none ↦ ((bad_json_body cfg web), g)
        | some body ↦
            reply_with (profile_response cfg web)
              (send (to_profile cfg web) r op_update_nickname token (web.marshal_nickname body) g)
      ])

  unfoldable pub get_profile_picture : Handler
  get_profile_picture r = with_token r (λ token g.
      reply_with (picture_response cfg web)
        (send (to_picture cfg web) r op_get_profile_picture token [] g))

  send_upload : HttpRequest → Bytes → Upload → Gate W → HttpResponse × Gate W
  send_upload r token (rejected message) g =
      ((write_protocol_error cfg web) status_bad_request "bad_request" message, g)
  send_upload r token (accepted body) g =
      reply_with (profile_response cfg web)
        (send (to_profile cfg web) r op_upload_profile_picture token (web.marshal_upload body) g)

  upload_form : HttpRequest → Bytes → Option (Option UploadedFile) → Gate W → HttpResponse × Gate W
  unfolding send_upload
  upload_form r token none g = (
    (write_protocol_error cfg web) status_bad_request "bad_request" "Invalid multipart upload.",
    g,
  )
  upload_form r token (some none) g =
      ((write_protocol_error cfg web) status_bad_request "bad_request" "Missing picture file.", g)
  upload_form r token (some (some file)) g = send_upload r token ((upload_body cfg web) file) g

  unfoldable pub upload_profile_picture : Handler
  unfolding upload_form
  upload_profile_picture r =
      with_token r (λ token.
        upload_form r token (web.parse_form cfg.max_body_bytes ((limited_body cfg web) r)))

  -- The backend is told, where there is a token; whether that succeeds does not matter.
  unfoldable pub end_session : HttpRequest → Gate W → Gate W
  end_session r g = elim (r.cookie cfg.cookie_name) [
    | none ↦ g
    | some value ↦
        if is_empty value then g else (send (nowhere cfg web) r op_logout value (codes "{}") g).1
  ]

  unfoldable pub logout : Handler
  unfolding end_session
  logout r g =
      (record (ok_response cfg web) { cookies = (cleared_cookie cfg web) ∷ [] }, end_session r g)

  -- The patterns of the `ServeMux`.
  pub routes : List (String × Handler)
  routes =
      ("GET /api/health", health)
      ∷ ("POST /api/login", login)
      ∷ ("GET /api/me", me)
      ∷ ("GET /api/me/profile-picture", get_profile_picture)
      ∷ ("PUT /api/me/nickname", update_nickname)
      ∷ ("POST /api/me/profile-picture", upload_profile_picture)
      ∷ ("POST /api/logout", logout)
      ∷ []
