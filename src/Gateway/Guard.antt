-- ===== src/Gateway/Guard.antt =====
-- internal/httpapi/server.go: who gets past the cookie, and what an error of the backend becomes.
use cloud_native_entry_task.Prelude.{
  ℕ, ◌≡◌, refl, ap, sym, subst, ◌⊎◌, inl, inr, none, some, [], Bytes,
}
use cloud_native_entry_task.GoLib.Errors.{unauthorized, ok, err}
use cloud_native_entry_task.Config.Types.{HttpConfig, TcpConfig}
use cloud_native_entry_task.Protocol.Frame.RoundTrip.{frame}
use cloud_native_entry_task.Protocol.Messages.{Request, UserProfile, op_get_profile}
use cloud_native_entry_task.Service.Errors.{error_code}
use cloud_native_entry_task.Service.Interfaces.{Service}
use cloud_native_entry_task.Service.Account.{require_user}
use cloud_native_entry_task.Service.Handle.{BodyCodec}
use cloud_native_entry_task.Service.Handle.Guard.{IsGuarded, handle-require_user}
use cloud_native_entry_task.Service.TcpServer.{MessageCodec, response_of, busy}
use cloud_native_entry_task.Gateway.Http.{HttpRequest, HttpResponse, WebCodec}
use cloud_native_entry_task.Gateway.Client.{
  TcpClient, Gate, Backend, RequestCodec, CallResult, timeout_of, deadline_of,
}
use cloud_native_entry_task.Gateway.Client.Served.{
  IsSent, IsAnswered, IsServed, CallCases, next_request, call-handle,
}
use cloud_native_entry_task.Gateway.Status.{status_for}
use cloud_native_entry_task.Gateway.Responses.{
  unauthenticated, token_from_cookie, to_profile, write_error, write_protocol_error,
  profile_response,
}
use cloud_native_entry_task.Gateway.Handlers.{
  Handler, with_token, reply_with, me, get_profile_picture, update_nickname, upload_profile_picture,
}

module _ (cfg : HttpConfig) (web : WebCodec) {W : Type 0} (backend : Backend W)
    (json : RequestCodec) (client : TcpClient) where
  -- The handlers of the user's own data.
  pub data IsOwnData : Handler cfg web backend json client → Type 0 where
    guarded_me : IsOwnData (me cfg web backend json client)
    guarded_picture : IsOwnData (get_profile_picture cfg web backend json client)
    guarded_nickname : IsOwnData (update_nickname cfg web backend json client)
    guarded_upload : IsOwnData (upload_profile_picture cfg web backend json client)

  with_token-none :
      (r : HttpRequest) (f : Bytes → Gate W → HttpResponse × Gate W) (g : Gate W)
      → token_from_cookie cfg web r ≡ none
      → with_token cfg web backend json client r f g ≡ (unauthenticated cfg web, g)
  unfolding with_token
  with_token-none r f g e = rw (e, with_token) refl

  -- Without a cookie that is not blank, the handlers of the user's own data answer 401, ask the
  -- backend nothing and read nothing of the body.
  pub guarded-unauthenticated :
      {h : Handler cfg web backend json client} (r : HttpRequest) (g : Gate W)
      → IsOwnData h
      → token_from_cookie cfg web r ≡ none
      → h r g ≡ (unauthenticated cfg web, g)
  unfolding me get_profile_picture update_nickname upload_profile_picture
  guarded-unauthenticated r g guarded_me e = with_token-none r _ g e
  guarded-unauthenticated r g guarded_picture e = with_token-none r _ g e
  guarded-unauthenticated r g guarded_nickname e = with_token-none r _ g e
  guarded-unauthenticated r g guarded_upload e = with_token-none r _ g e

module _ {W : Type 0} (service : Service W) (bodies : BodyCodec) (messages : MessageCodec)
    (tcp : TcpConfig) (backend : Backend W) (c : TcpClient) (room : ℕ) (json : RequestCodec)
    (cfg : HttpConfig) (web : WebCodec) where
  refused_cases :
      (token : Bytes) (req : Request) (result : CallResult UserProfile) (g : Gate W)
      → IsGuarded req.op
      → ((v : W) → (require_user service req.token v).0 ≡ err unauthorized)
      → CallCases service bodies messages tcp (to_profile cfg web) req result
      → let answer = (reply_with cfg web backend json c (profile_response cfg web) (result, g)).0 in
        (answer ≡ write_protocol_error cfg web 401 "unauthorized" "Authentication failed.")
        ⊎ (answer ≡ write_protocol_error cfg web 429 "server_busy" "Server is busy.")
        ⊎ (answer
            ≡ write_protocol_error cfg web 502 "tcp_backend_unavailable"
                "Backend service is unavailable.")
  unfolding reply_with write_error status_for error_code
  refused_cases token req result g guarded refused (inl (v, e)) =
      let out = handle-require_user service bodies req v unauthorized guarded (refused v) in
      inl (rw (e, out) refl)
  refused_cases token req result g guarded refused (inr (inl e)) = inr (inl (rw e refl))
  refused_cases token req result g guarded refused (inr (inr e)) = inr (inr (rw e refl))

  -- With the TCP server behind it, whatever that does for other connections at the same time, `me`
  -- answers a token that `requireUser` takes for unauthorized in every world with 401, or with 429
  -- where the server is busy, or with 502 where the connection ends before a response; if the
  -- connection is made, and request and responses pass between the two.
  pub me_refused :
      (r : HttpRequest) (g : Gate W) (token payload : Bytes) (w : W)
      → token_from_cookie cfg web r ≡ some token
      → ((v : W) → (require_user service token v).0 ≡ err unauthorized)
      → backend.dial c.addr (deadline_of (timeout_of r.remaining c.timeout)) g.world ≡ (ok room, w)
      → IsSent json messages c tcp room (next_request g op_get_profile token []) payload
      → IsServed service bodies messages tcp room payload w (backend.receive (frame payload) w)
      → IsAnswered json messages c tcp room
          (response_of (next_request g op_get_profile token []) (err unauthorized))
      → IsAnswered json messages c tcp room (busy (next_request g op_get_profile token []))
      → let answer = (me cfg web backend json c r g).0 in
        (answer ≡ write_protocol_error cfg web 401 "unauthorized" "Authentication failed.")
        ⊎ (answer ≡ write_protocol_error cfg web 429 "server_busy" "Server is busy.")
        ⊎ (answer
            ≡ write_protocol_error cfg web 502 "tcp_backend_unavailable"
                "Backend service is unavailable.")
  unfolding me with_token
  me_refused r g token payload w given refused dialled sent served back back_busy =
      let req = next_request g op_get_profile token [] in
      let called =
        call-handle service bodies messages tcp backend c room json (to_profile cfg web)
          op_get_profile token [] (timeout_of r.remaining c.timeout) g payload w dialled sent served
          (λ v.
            subst (λ x. IsAnswered json messages c tcp room (response_of req x))
              (sym (
                ap (λ q. q.0)
                  (handle-require_user service bodies req v unauthorized (inl refl) (refused v))))
              back)
          back_busy in
      rw (given, with_token) (refused_cases token req _ _ (inl refl) refused called)
