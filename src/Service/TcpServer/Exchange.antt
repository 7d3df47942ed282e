-- ===== src/Service/TcpServer/Exchange.antt =====
-- internal/service/tcp_server.go: what one connection is sent for the one request that it sends.
use mathlib.Core.List.{append-nil}
use cloud_native_entry_task.Prelude.{
  ℕ, ◌≡◌, ◌≢◌, refl, sym, ap, ◌∙◌, subst, ◌⊎◌, inl, inr, true, false, Bool, Option, none, some, [],
  Bytes, arith, ◌==◌, if◌then◌else◌,
}
use cloud_native_entry_task.Config.Types.{TcpConfig}
use cloud_native_entry_task.Protocol.Frame
use cloud_native_entry_task.Protocol.Frame.{Writer, read_frame, write_frame}
use cloud_native_entry_task.Protocol.Frame.RoundTrip.{frame, IsAcceptable, read_frame-frame}
use cloud_native_entry_task.Protocol.Messages.{Request, Response}
use cloud_native_entry_task.Service.Interfaces.{Service}
use cloud_native_entry_task.Service.Handle.{BodyCodec, handle}
use cloud_native_entry_task.Service.TcpServer.{
  MessageCodec, Answer, State, Connection, unopened, reading, closed, waiting, update, response_of,
  busy, write_response, Receives, Step, accept, drop, refuse, enqueue, hand_over, refuse_busy,
  reply, deliver, leave_reading, leave_waiting, Reach, later,
}
use cloud_native_entry_task.Service.TcpServer.Reachable.{own_answer}
use cloud_native_entry_task.Service.TcpServer.Liveness.{Run, done, next}

pub read_whole :
    (payload : Bytes) (max_bytes : ℕ)
    → IsAcceptable max_bytes payload
    → read_frame (frame payload) max_bytes ≡ Frame.ok (payload, [])
read_whole payload max_bytes a =
    ap (λ s. read_frame s max_bytes) (sym (append-nil (frame payload)))
    ∙ read_frame-frame payload [] max_bytes a

read_nothing : (max_bytes : ℕ) {r : Bytes × Bytes} → read_frame [] max_bytes ≢ Frame.ok r
unfolding read_frame
read_nothing max_bytes e = cc

-- What is so of a connection stays so if another one is updated.
update_other :
    (P : Connection → Type 0) (i j : ℕ) (c : Connection) (conns : ℕ → Connection)
    → (j ≡ i → P c)
    → P (conns i)
    → P (update j c conns i)
update_other P i j c conns own kept = choose (i == j) (λ e. own (ground arith))
  where
    choose : (b : Bool) → (b ≡ true → P c) → P (if b then c else conns i)
    choose true h = h refl
    choose false h = kept

module _ {W : Type 0} (service : Service W) (bodies : BodyCodec) (json : MessageCodec)
    (cfg : TcpConfig) (i : ℕ) (payload : Bytes) (req : Request) (start : Writer) where
  abbrev pub written : Response → Writer
  written resp = (write_frame start (json.marshal_response resp) cfg.max_frame_bytes).1

  -- Either the response to what `Handle` returned in some world, or the one that the server is busy.
  abbrev pub Said : Writer → Type 0
  Said output =
      ((v : W) × (output ≡ written (response_of req (handle service bodies req v).0)))
      ⊎ (output ≡ written (busy req))

  -- How far the server is with the request of a connection.
  pub data Stage (c : Connection) : Type 0 where
    unread : c.phase ≡ reading → c.input ≡ frame payload → c.output ≡ start → Stage c
    waits : c.phase ≡ waiting req → c.input ≡ [] → c.output ≡ start → Stage c
    said : c.phase ≡ reading → c.input ≡ [] → Said c.output → Stage c
    left : c.phase ≡ closed → (c.output ≡ start) ⊎ Said c.output → Stage c

  -- What the connection was sent so far.
  sent : {c : Connection} → Stage c → (c.output ≡ start) ⊎ Said c.output
  sent (unread e f g) = inl g
  sent (waits e f g) = inl g
  sent (said e f g) = inr g
  sent (left e f) = f

module _ {W : Type 0} (service : Service W) (bodies : BodyCodec) (json : MessageCodec)
    (cfg : TcpConfig) (i : ℕ) (payload : Bytes) (req : Request) (start : Writer)
    (acceptable : IsAcceptable cfg.max_frame_bytes payload)
    (meant : json.unmarshal_request payload ≡ some req) where
  abbrev At : Connection → Type 0
  At = Stage service bodies json cfg i payload req start

  -- A frame that is received is that of the request.
  received_lem :
      (c : Connection) (p rest : Bytes)
      → At c
      → c.phase ≡ reading
      → Receives json cfg c p rest
      → (p ≡ payload) × (rest ≡ []) × (c.output ≡ start)
  received_lem c p rest (unread e f g) h r =
      let whole : read_frame c.input cfg.max_frame_bytes ≡ Frame.ok (payload, []) =
        ap (λ s. read_frame s cfg.max_frame_bytes) f
        ∙ read_whole payload cfg.max_frame_bytes acceptable in
      (cc, cc, g)
  received_lem c p rest (waits e f g) h r = absurd (cc)
  received_lem c p rest (said e f g) h r = absurd (
      read_nothing cfg.max_frame_bytes
        (subst (λ s. read_frame s cfg.max_frame_bytes ≡ Frame.ok (p, rest)) f r))
  received_lem c p rest (left e f) h r = absurd (cc)

  same_request :
      (p : Bytes) (req' : Request) → p ≡ payload → json.unmarshal_request p ≡ some req' → req' ≡ req
  same_request p req' e g =
      let found : json.unmarshal_request payload ≡ some req' =
        subst (λ q. json.unmarshal_request q ≡ some req') e g in
      cc

  -- The request that a connection waits with.
  waiting_lem :
      (c : Connection) (req' : Request)
      → At c
      → c.phase ≡ waiting req'
      → (req' ≡ req) × (c.input ≡ []) × (c.output ≡ start)
  waiting_lem c req' (unread e f g) h = absurd (cc)
  waiting_lem c req' (waits e f g) h = (cc, f, g)
  waiting_lem c req' (said e f g) h = absurd (cc)
  waiting_lem c req' (left e f) h = absurd (cc)

  opened_lem : (c : Connection) → At c → c.phase ≢ unopened
  opened_lem c (unread e f g) h = cc
  opened_lem c (waits e f g) h = cc
  opened_lem c (said e f g) h = cc
  opened_lem c (left e f) h = cc

  with_channel : (c : Connection) (o : Option Answer) → At c → At (record c { channel = o })
  with_channel c o (unread e f g) = unread e f g
  with_channel c o (waits e f g) = waits e f g
  with_channel c o (said e f g) = said e f g
  with_channel c o (left e f) = left e f

  -- The request is put on its way.
  taken_up :
      (c : Connection) (p rest : Bytes) (req' : Request)
      → At c
      → c.phase ≡ reading
      → Receives json cfg c p rest
      → json.unmarshal_request p ≡ some req'
      → At (record c { phase = waiting req'; channel = none; input = rest })
  taken_up c p rest req' a e f g =
      let (same, all, unsaid) = received_lem c p rest a e f in
      waits (ap waiting (same_request p req' same g)) all unsaid

  turned_away :
      (c : Connection) (p rest : Bytes) (req' : Request)
      → At c
      → c.phase ≡ reading
      → Receives json cfg c p rest
      → json.unmarshal_request p ≡ some req'
      → At (write_response json cfg (record c { input = rest }) (busy req'))
  unfolding write_response
  turned_away c p rest req' a e f g =
      let (same, all, unsaid) = received_lem c p rest a e f in
      let req_is = same_request p req' same g in said e all (inr (rw (unsaid, req_is) refl))

  answered :
      (c : Connection) (req' : Request) (b : Answer) (v : W)
      → At c
      → c.phase ≡ waiting req'
      → b.job.req ≡ req'
      → b.result ≡ (handle service bodies req' v).0
      → At (
          write_response json cfg
            (record c { phase = reading; channel = none })
            (response_of b.job.req b.result))
  unfolding write_response
  answered c req' b v a e own result =
      let (same, all, unsaid) = waiting_lem c req' a e in
      said refl all (inl (v, rw (unsaid, own, result, same) refl))

  Step-Stage :
      {w : W} {s t : State W}
      → Reach service bodies json cfg w s
      → Step service bodies json cfg s t
      → At (s.conns i)
      → At (t.conns i)
  Step-Stage {s} r (accept j input output e f) a =
      update_other At i j _ s.conns (λ same. absurd (opened_lem (s.conns j) (rw same a) e)) a
  Step-Stage {s} r (drop j e) a =
      update_other At i j _ s.conns
        (λ same. rw same (left refl (sent service bodies json cfg i payload req start a))) a
  Step-Stage {s} r (refuse j p rest e f g) a =
      update_other At i j _ s.conns
        (λ same.
          let (whole, _, _) = received_lem (s.conns j) p rest (rw same a) e f in
          let none_read : json.unmarshal_request payload ≡ none =
            subst (λ q. json.unmarshal_request q ≡ none) whole g in
          absurd (cc))
        a
  Step-Stage {s} r (enqueue j p rest req' e f g k l) a =
      update_other At i j _ s.conns (λ same. taken_up (s.conns j) p rest req' (rw same a) e f g) a
  Step-Stage {s} r (hand_over j p rest req' n e f g k l m) a =
      update_other At i j _ s.conns (λ same. taken_up (s.conns j) p rest req' (rw same a) e f g) a
  Step-Stage {s} r (refuse_busy j p rest req' e f g k l) a =
      update_other At i j _ s.conns (λ same. turned_away (s.conns j) p rest req' (rw same a) e f g)
        a
  Step-Stage {s} r (reply xs b ys e f) a =
      update_other At i b.job.conn _ s.conns
        (λ same. with_channel (s.conns b.job.conn) (some b) (rw same a)) a
  Step-Stage {s} r (deliver j req' b e f) a =
      let (own, (v, result)) = own_answer j req' b r e f in
      update_other At i j _ s.conns (λ same. answered (s.conns j) req' b v (rw same a) e own result)
        a
  Step-Stage {s} r (leave_reading j p rest req' c e f g) a =
      update_other At i j _ s.conns
        (λ same. rw same (left refl (sent service bodies json cfg i payload req start a))) a
  Step-Stage {s} r (leave_waiting j req' c e) a =
      update_other At i j _ s.conns
        (λ same. rw same (left refl (sent service bodies json cfg i payload req start a))) a
  Step-Stage r st a = a

  Run-Stage :
      {w : W} {s t : State W}
      → Reach service bodies json cfg w s
      → Run service bodies json cfg s t
      → At (s.conns i)
      → At (t.conns i)
  Run-Stage r done a = a
  Run-Stage r (next st run) a = Run-Stage (later r st) run (Step-Stage r st a)

  -- However the server goes on, with whatever other connections: a connection that is accepted with
  -- the frame of a request as all that the client sends is, at any later time, sent nothing, or one
  -- response: to what `Handle` returned for that request in some world, or that the server is busy;
  -- if the frame is within the limits and the request can be read from it.
  pub exchange_sound :
      {w : W} {s t : State W}
      → Reach service bodies json cfg w s
      → (s.conns i).phase ≡ reading
      → (s.conns i).input ≡ frame payload
      → (s.conns i).output ≡ start
      → Run service bodies json cfg s t
      → ((t.conns i).output ≡ start)
        ⊎ Said service bodies json cfg i payload req start (t.conns i).output
  exchange_sound r e f g run =
      sent service bodies json cfg i payload req start (Run-Stage r run (unread e f g))
