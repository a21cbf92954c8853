-- ===== src/Server/Control/Bounds.antt =====
-- The bounded control channels hold no more than their capacity.
use esesaetsch.Base.{
  ℕ, zero, suc, ◌+◌, ◌≤◌, Bool, true, false, Option, none, some, List, [], ◌∷◌, ◌++◌, if◌then◌else◌,
  length, eqb, ◌≡◌, ◌⊎◌, refl, inl, inr, arith, Option-cases, Bool-cases, some-injective, subst,
  ltb, ◌&&◌,
}
use esesaetsch.Std.Utf8.{from_utf8_lossy}
use esesaetsch.Pty.{Command}
use esesaetsch.Server.Types.{ServerState, Task, ControlMsg, Handler, send_control, send_to, stdin}
use esesaetsch.Server.Sessions.{
  channel_open_session, pty_request, launch_session, is_interactive, shell_request, exec_request,
  data_received, window_change_request,
}
use esesaetsch.Server.Events.{
  ChannelEvent, open_session, pty, shell, exec, channel_data, window_change, on_channel,
}
use esesaetsch.Server.Routes.{Launched, launch-Launched}
use esesaetsch.Server.Control.{
  control_capacity, Receiver, Link, LinkEvent, callback, received, dropped, set_receiver, target,
  messages_to, has_room, call, resume, take, drop_receiver, step_link, run_link,
}

abbrev is_target : Option ℕ → ℕ → Bool
is_target none i = false
is_target (some k) i = eqb k i

-- One more message at most, and only to the target.
abbrev IsSent : Option ℕ → ℕ → ℕ → ℕ → Type 0
IsSent o i n n' = (n ≤ n') × (n' ≤ n + (if is_target o i then 1 else 0))

length-snoc :
    (msgs : List ControlMsg) (msg : ControlMsg) → length (msgs ++ msg ∷ []) ≡ length msgs + 1
length-snoc [] msg = refl
length-snoc (m ∷ msgs) msg = omega (arith, length-snoc msgs msg)

module _ {Child : Type 0} where
  messages_to-send_control :
      (k i : ℕ) (msg : ControlMsg) (tasks : List (Task Child))
      → IsSent (some k) i (messages_to i tasks) (messages_to i (send_control k msg tasks))
  unfolding send_control
  messages_to-send_control k i msg [] = ground arith
  messages_to-send_control zero zero msg (t ∷ tasks) = ground (arith, length-snoc t.control msg)
  messages_to-send_control zero (suc i) msg (t ∷ tasks) = ground arith
  messages_to-send_control (suc k) zero msg (t ∷ tasks) = ground arith
  messages_to-send_control (suc k) (suc i) msg (t ∷ tasks) =
      let same : eqb (suc k) (suc i) ≡ eqb k i = ground arith in
      rw same (messages_to-send_control k i msg tasks)

  messages_to-send_to :
      (o : Option ℕ) (i : ℕ) (msg : ControlMsg) (tasks : List (Task Child))
      → IsSent o i (messages_to i tasks) (messages_to i (send_to o msg tasks))
  messages_to-send_to none i msg tasks = ground arith
  messages_to-send_to (some k) i msg tasks = messages_to-send_control k i msg tasks

  messages_to-snoc :
      (i : ℕ) (tasks : List (Task Child)) (t : Task Child)
      → t.control ≡ []
      → messages_to i (tasks ++ t ∷ []) ≡ messages_to i tasks
  messages_to-snoc zero [] t h = rw h refl
  messages_to-snoc (suc i) [] t h = refl
  messages_to-snoc zero (s ∷ tasks) t h = refl
  messages_to-snoc (suc i) (s ∷ tasks) t h = messages_to-snoc i tasks t h

module _ {Env Child Cert : Type 0} (state : ServerState Env Cert Child) where
  IsSent-refl : (n n' : ℕ) (i : ℕ) → n' ≡ n → IsSent none i n n'
  IsSent-refl n n' i h = ground arith

  messages_to-Launched :
      (h h' : Handler Env Child) (id i : ℕ) (interactive : Bool)
      → Launched state h id interactive h'
      → messages_to i h'.tasks ≡ messages_to i h.tasks
  messages_to-Launched h h' id i interactive (inl (c, t)) = rw t refl
  messages_to-Launched h h' id i interactive (inr (child, c, t)) =
      rw t (messages_to-snoc i h.tasks _ refl)

  messages_to-on_channel :
      (h : Handler Env Child) (e : ChannelEvent) (i : ℕ)
      → IsSent (target h e) i (messages_to i h.tasks) (messages_to i (on_channel state h e).tasks)
  unfolding channel_open_session pty_request shell_request exec_request data_received
      window_change_request
  messages_to-on_channel h (open_session id) i = ground arith
  messages_to-on_channel h (pty id term c r pw ph) i = ground arith
  messages_to-on_channel h (shell id) i = IsSent-refl _ _ i (
      messages_to-Launched h (launch_session state h id Command.shell (is_interactive h id)) id i _
        (launch-Launched state h id Command.shell (is_interactive h id)))
  messages_to-on_channel h (exec id bytes) i = IsSent-refl _ _ i (
      messages_to-Launched h
        (launch_session state h id (Command.exec (from_utf8_lossy bytes)) (is_interactive h id)) id
        i _
        (launch-Launched state h id (Command.exec (from_utf8_lossy bytes)) (is_interactive h id)))
  messages_to-on_channel h (channel_data id bytes) i =
      messages_to-send_to (target h (channel_data id bytes)) i (stdin bytes) h.tasks
  messages_to-on_channel h (window_change id c r) i =
      messages_to-send_to (target h (window_change id c r)) i _ h.tasks

  abbrev pub IsWithin : Receiver → ℕ → Type 0
  IsWithin r sent = (r.taken ≤ sent) × ((r.is_open ≡ false) ⊎ (sent ≤ r.taken + control_capacity))

  -- No session has received more than it was sent, and no more than the capacity waits in a channel
  -- that has a receiver.
  abbrev pub IsBounded : Link Env Child → Type 0
  IsBounded l = (i : ℕ) → IsWithin (l.receivers i) (messages_to i l.handler.tasks)

  IsWithin-IsSent :
      (l : Link Env Child) (o : Option ℕ) (i n' : ℕ)
      → has_room l o ≡ true
      → IsSent o i (messages_to i l.handler.tasks) n'
      → IsWithin (l.receivers i) (messages_to i l.handler.tasks)
      → IsWithin (l.receivers i) n'
  IsWithin-IsSent l none i n' room sent within = ground arith
  IsWithin-IsSent l (some k) i n' room sent within = elim (Bool-cases (eqb k i)) [
    | inl same ↦
        let eq : k ≡ i = ground arith in
        let here : has_room l (some i) ≡ true = subst (λ j. has_room l (some j) ≡ true) eq room in
        ground arith
    | inr other ↦ ground arith
  ]

  call-IsBounded :
      (e : ChannelEvent) (l : Link Env Child) → IsBounded l → IsBounded (call state e l)
  call-IsBounded e l b i = elim (Bool-cases (has_room l (target l.handler e))) [
    | inr full ↦ rw (full, call) (b i)
    | inl room ↦
        rw (room, call)
          (IsWithin-IsSent l (target l.handler e) i
            (messages_to i (on_channel state l.handler e).tasks) room
            (messages_to-on_channel l.handler e i) (b i))
  ]

  resume-IsBounded :
      (w : Option ChannelEvent) (l : Link Env Child) → IsBounded l → IsBounded (resume state w l)
  resume-IsBounded none l b = b
  resume-IsBounded (some e) l b = call-IsBounded e l b

  set_receiver-IsWithin :
      (k : ℕ) (r : Receiver) (receivers : ℕ → Receiver) (sent : ℕ → ℕ)
      → IsWithin r (sent k)
      → ((i : ℕ) → IsWithin (receivers i) (sent i))
      → (i : ℕ) → IsWithin (set_receiver k r receivers i) (sent i)
  set_receiver-IsWithin k r receivers sent new old i = elim (Bool-cases (eqb k i)) [
    | inl same ↦ rw same (subst (λ j. IsWithin r (sent j)) (ground arith) new)
    | inr other ↦ rw other (old i)
  ]

  abbrev sent_by : Link Env Child → ℕ → ℕ
  sent_by l i = messages_to i l.handler.tasks

  take-IsBounded :
      (k : ℕ) (l : Link Env Child)
      → ltb (l.receivers k).taken (messages_to k l.handler.tasks) ≡ true
      → IsBounded l
      → IsBounded (take state k l)
  take-IsBounded k l more b =
      set_receiver-IsWithin k _ l.receivers (sent_by l) (ground (arith, b k)) b

  drop_receiver-IsBounded :
      (k : ℕ) (l : Link Env Child) → IsBounded l → IsBounded (drop_receiver state k l)
  drop_receiver-IsBounded k l b =
      set_receiver-IsWithin k _ l.receivers (sent_by l) ((b k).0, inl refl) b

  step_link-IsBounded :
      (l u : Link Env Child) (e : LinkEvent)
      → step_link state l e ≡ some u
      → IsBounded l
      → IsBounded u
  unfolding step_link
  step_link-IsBounded l u (callback e) h b = elim (Option-cases l.waiting) [
    | inl idle ↦ subst IsBounded (some-injective _ _ (rw idle at h)) (call-IsBounded e l b)
    | inr (busy, waits) ↦ absurd (let k = rw waits at h in ground arith)
  ]
  step_link-IsBounded l u (received i) h b =
      elim (Bool-cases
        ((l.receivers i).is_open && ltb (l.receivers i).taken (messages_to i l.handler.tasks))) [
          | inl ready ↦
              subst IsBounded (some-injective _ _ (rw ready at h))
                (resume-IsBounded l.waiting (take state i l) (take-IsBounded i l (ground arith) b))
          | inr idle ↦ absurd (let k = rw idle at h in ground arith)
        ]
  step_link-IsBounded l u (dropped i) h b =
      subst IsBounded (some-injective _ _ h)
        (resume-IsBounded l.waiting (drop_receiver state i l) (drop_receiver-IsBounded i l b))

  pub run_link-IsBounded :
      (events : List LinkEvent) (l u : Link Env Child)
      → run_link state l events ≡ some u
      → IsBounded l
      → IsBounded u
  unfolding run_link
  run_link-IsBounded [] l u h b = subst IsBounded (some-injective _ _ h) b
  run_link-IsBounded (e ∷ events) l u h b = elim (Option-cases (step_link state l e)) [
    | inl stuck ↦ absurd (ground arith)
    | inr (v, made) ↦
        run_link-IsBounded events v u (ground arith) (step_link-IsBounded l v e made b)
  ]
