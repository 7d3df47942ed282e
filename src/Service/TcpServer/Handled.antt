-- ===== src/Service/TcpServer/Handled.antt =====
-- internal/service/tcp_server.go: every answer is what `Handle` gave for its request.
use cloud_native_entry_task.Prelude.{
  ℕ, ◌≡◌, refl, subst, some, Bool, true, false, List, [], ◌∷◌, ◌++◌, All, All-append, ◌==◌,
  if◌then◌else◌,
}
use cloud_native_entry_task.Config.Types.{TcpConfig}
use cloud_native_entry_task.Service.Interfaces.{Service}
use cloud_native_entry_task.Service.Handle.{BodyCodec, handle}
use cloud_native_entry_task.Service.TcpServer.{
  MessageCodec, Answer, State, Connection, update, write_response, Step, accept, drop, refuse,
  enqueue, hand_over, refuse_busy, handle_job, reply, deliver, leave_reading, leave_waiting,
  stop_replying, Reach, start, later, made-init,
}

All-split :
    {A : Type 0} (P : A → Type 0) (xs : List A) (y : A) (ys : List A)
    → All P (xs ++ y ∷ ys)
    → P y × All P (xs ++ ys)
All-split P [] y ys h = h
All-split P (x ∷ xs) y ys h =
    let (found, others) = All-split P xs y ys h.1 in (found, (h.0, others))

update-channel :
    (P : Answer → Type 0) (i : ℕ) (c : Connection) (conns : ℕ → Connection)
    → ((a : Answer) → c.channel ≡ some a → P a)
    → ((j : ℕ) (a : Answer) → (conns j).channel ≡ some a → P a)
    → (j : ℕ) (a : Answer) → (update i c conns j).channel ≡ some a
    → P a
update-channel P i c conns own others j a q = choose (j == i) q
  where
    choose : (b : Bool) → (if b then c else conns j).channel ≡ some a → P a
    choose true q = own a q
    choose false q = others j a q

module _ {W : Type 0} (service : Service W) (bodies : BodyCodec) where
  -- The result is that of `Handle`, in the world that it ran in.
  abbrev pub IsHandled : Answer → Type 0
  IsHandled a = (v : W) × (a.result ≡ (handle service bodies a.job.req v).0)

  pub record Inv (s : State W) : Type 0 where
    pub answers : All IsHandled s.replying
    pub channels : (i : ℕ) (a : Answer) → (s.conns i).channel ≡ some a → IsHandled a

  abbrev kept :
      (s : State W)
      → Inv s
      → (i : ℕ) (c : Connection) → ((a : Answer) → c.channel ≡ some a → IsHandled a)
      → (j : ℕ) (a : Answer) → (update i c s.conns j).channel ≡ some a
      → IsHandled a
  kept s inv i c own = update-channel IsHandled i c s.conns own inv.channels

module _ {W : Type 0} {service : Service W} {bodies : BodyCodec} {json : MessageCodec}
    {cfg : TcpConfig} where
  Step-answers :
      {s t : State W}
      → Step service bodies json cfg s t
      → Inv service bodies s
      → All (IsHandled service bodies) t.replying
  Step-answers {s} (handle_job xs job ys e) inv =
      All-append (IsHandled service bodies) s.replying (_ ∷ []) inv.answers ((s.world, refl), tt)
  Step-answers (reply xs a ys e f) inv =
      (All-split (IsHandled service bodies) xs a ys
        (subst (All (IsHandled service bodies)) e inv.answers)).1
  Step-answers (stop_replying xs a ys c e) inv =
      (All-split (IsHandled service bodies) xs a ys
        (subst (All (IsHandled service bodies)) e inv.answers)).1
  Step-answers st inv = inv.answers

  Step-channels :
      {s t : State W}
      → Step service bodies json cfg s t
      → Inv service bodies s
      → (j : ℕ) (a : Answer) → (t.conns j).channel ≡ some a
      → IsHandled service bodies a
  unfolding write_response
  Step-channels {s} (accept i input output e f) inv =
      kept service bodies s inv i _ (λ b q. absurd (cc))
  Step-channels {s} (drop i e) inv = kept service bodies s inv i _ (inv.channels i)
  Step-channels {s} (refuse i payload rest e f g) inv =
      kept service bodies s inv i _ (inv.channels i)
  Step-channels {s} (enqueue i payload rest req e f g k l) inv =
      kept service bodies s inv i _ (λ b q. absurd (cc))
  Step-channels {s} (hand_over i payload rest req n e f g k l m) inv =
      kept service bodies s inv i _ (λ b q. absurd (cc))
  Step-channels {s} (refuse_busy i payload rest req e f g k l) inv =
      kept service bodies s inv i _ (inv.channels i)
  Step-channels {s} (reply xs a ys e f) inv =
      let all = subst (All (IsHandled service bodies)) e inv.answers in
      let h = (All-split (IsHandled service bodies) xs a ys all).0 in
      kept service bodies s inv a.job.conn _
        (λ b q. let same : a ≡ b = cc in subst (IsHandled service bodies) same h)
  Step-channels {s} (deliver i req a e f) inv = kept service bodies s inv i _ (λ b q. absurd (cc))
  Step-channels {s} (leave_reading i payload rest req c e f g) inv =
      kept service bodies s inv i _ (inv.channels i)
  Step-channels {s} (leave_waiting i req c e) inv = kept service bodies s inv i _ (inv.channels i)
  Step-channels st inv = inv.channels

  pub Reach-Inv : {w : W} {s : State W} → Reach service bodies json cfg w s → Inv service bodies s
  Reach-Inv {w} (start made) =
      subst (Inv service bodies) (made-init cfg w _ made)
        (record { answers = tt; channels = λ i a q. absurd (cc) })
  Reach-Inv (later r st) =
      let inv = Reach-Inv r in
      record { answers = Step-answers st inv; channels = Step-channels st inv }
