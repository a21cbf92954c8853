-- ===== src/Server/Delivery.antt =====
-- server.rs: what the messages of a client on a channel make the channel's session task receive.
use esesaetsch.Base.{
  ℕ, ◌<◌, Bool, true, false, Option, none, some, List, [], ◌∷◌, ◌++◌, String, ◌≡◌, ◌≢◌, refl, sym,
  inl, inr, ok, eqb, if◌then◌else◌, length, nth, arith, Bool-cases, All, ap, ◌∙◌, append-nil,
  append_assoc, Result,
}
use esesaetsch.Crates.{Bytes}
use esesaetsch.Std.Utf8.{from_utf8_lossy}
use esesaetsch.Error.{CertError}
use esesaetsch.Pty.{Command}
use esesaetsch.Server.Types.{ServerState, Task, ControlMsg, stdin, Handler, send_to, find_channel}
use esesaetsch.Server.Sessions.{
  channel_open_session, pty_request, spec_for, launch_session, is_interactive, shell_request,
  exec_request, data_received, window_change_request,
}
use esesaetsch.Server.Events.{
  ChannelEvent, open_session, pty, shell, exec, channel_data, window_change, on_channel,
}
use esesaetsch.Server.Reject.{on_auth-Concluded}
use esesaetsch.Server.Reach.{Reach, begin, authenticate, on_wire, outside}
use esesaetsch.Server.Routes.{
  tx, message, launches, messages, HasTasks, IsRouted, new_task, nth-send_control, nth-lt,
  nth-length, launch-Launched, launch_session-put, tx-put_channel, Launched-nth, on_channel-Routes,
}

module _ {Child : Type 0} where
  abbrev pub sent : Task Child → List ControlMsg → Task Child
  sent t msgs = record t { control = t.control ++ msgs }

  sent-nil : (t : Task Child) → sent t [] ≡ t
  sent-nil t = rw append-nil refl

  -- A message to a channel reaches the task if the channel is the task's.
  nth-send_to :
      (o : Option ℕ) (b : Bool) (i : ℕ) (msg : ControlMsg) (tasks : List (Task Child))
      (t : Task Child)
      → (b ≡ true → o ≡ some i)
      → (b ≡ false → o ≢ some i)
      → nth i tasks ≡ some t
      → nth i (send_to o msg tasks) ≡ some (sent t (if b then msg ∷ [] else []))
  nth-send_to none true i msg tasks t yes_ no_ n = absurd (ground (arith, yes_ refl))
  nth-send_to none false i msg tasks t yes_ no_ n = n ∙ ap some (sym (sent-nil t))
  nth-send_to (some k) true i msg tasks t yes_ no_ n =
      let same : eqb k i ≡ true = ground (arith, yes_ refl) in
      nth-send_control k i msg tasks t n ∙ rw same refl
  nth-send_to (some k) false i msg tasks t yes_ no_ n = elim (Bool-cases (eqb k i)) [
    | inl same ↦ absurd (no_ refl (ap some (ground arith)))
    | inr other ↦ nth-send_control k i msg tasks t n ∙ rw other (ap some (sym (sent-nil t)))
  ]

module _ {Env Child Cert : Type 0} (state : ServerState Env Cert Child) where
  on_channel-nth :
      (h : Handler Env Child) (e : ChannelEvent) (id i : ℕ) (t : Task Child)
      → IsRouted id i h
      → nth i h.tasks ≡ some t
      → nth i (on_channel state h e).tasks ≡ some (sent t (message id e))
  unfolding channel_open_session pty_request shell_request exec_request data_received
      window_change_request
  on_channel-nth h (open_session j) id i t r n = n ∙ ap some (sym (sent-nil t))
  on_channel-nth h (pty j term c w pw ph) id i t r n = n ∙ ap some (sym (sent-nil t))
  on_channel-nth h (shell j) id i t r n =
      Launched-nth state h (launch_session state h j Command.shell (is_interactive h j)) j i _ t
        (launch-Launched state h j Command.shell (is_interactive h j)) n
      ∙ ap some (sym (sent-nil t))
  on_channel-nth h (exec j bytes) id i t r n =
      let command = Command.exec (from_utf8_lossy bytes) in
      Launched-nth state h (launch_session state h j command (is_interactive h j)) j i _ t
        (launch-Launched state h j command (is_interactive h j)) n
      ∙ ap some (sym (sent-nil t))
  on_channel-nth h (channel_data j bytes) id i t r n =
      nth-send_to (tx j h) (eqb j id) i (stdin bytes) h.tasks t
        (λ same. let eq : j ≡ id = ground arith in rw eq r.here)
        (λ other q. absurd (ground (arith, r.alone j q))) n
  on_channel-nth h (window_change j c w) id i t r n =
      nth-send_to (tx j h) (eqb j id) i _ h.tasks t
        (λ same. let eq : j ≡ id = ground arith in rw eq r.here)
        (λ other q. absurd (ground (arith, r.alone j q))) n

  on_channel-IsRouted :
      (h : Handler Env Child) (e : ChannelEvent) (id i : ℕ)
      → launches e ≢ some id
      → i < length h.tasks
      → IsRouted id i h
      → IsRouted id i (on_channel state h e)
  on_channel-IsRouted h e id i k l r = elim (on_channel-Routes state h e) [
    | inl (same, count) ↦ record {
      here = same id ∙ r.here;
      alone = λ j q. r.alone j (sym (same j) ∙ q);
    }
    | inr (c, at_, to, count) ↦ record {
      here = ground (arith, to id);
      alone = λ j q. ground (arith, to j, r.alone j);
    }
  ]

  -- The handler after these events, in this order.
  abbrev pub on_channels : Handler Env Child → List ChannelEvent → Handler Env Child
  on_channels h [] = h
  on_channels h (e ∷ es) = on_channels (on_channel state h e) es

  on_channels-nth :
      (es : List ChannelEvent) (h : Handler Env Child) (id i : ℕ) (t : Task Child)
      → All (λ e. launches e ≢ some id) es
      → IsRouted id i h
      → nth i h.tasks ≡ some t
      → nth i (on_channels h es).tasks ≡ some (sent t (messages id es))
  on_channels-nth [] h id i t k r n = n ∙ ap some (sym (sent-nil t))
  on_channels-nth (e ∷ es) h id i t (k, ks) r n =
      on_channels-nth es (on_channel state h e) id i (sent t (message id e)) ks
        (on_channel-IsRouted h e id i k (nth-lt i h.tasks t n) r) (on_channel-nth h e id i t r n)
      ∙ ap (λ m. some (record t { control = m }))
          (append_assoc t.control (message id e) (messages id es))

  on_channel-HasTasks :
      (h : Handler Env Child) (e : ChannelEvent) → HasTasks h → HasTasks (on_channel state h e)
  on_channel-HasTasks h e all j n q = elim (on_channel-Routes state h e) [
    | inl (same, count) ↦ rw count (all j n (sym (same j) ∙ q))
    | inr (c, at_, to, count) ↦ ground (arith, to j, q, all j n)
  ]

  -- Every channel of a connection that a client can bring about sends to a task of it.
  Reach-HasTasks :
      {WireCert : Type 0} (to_bytes : WireCert → Result String Bytes)
      (parse : Bytes → Result CertError Cert) {h : Handler Env Child}
      → Reach state to_bytes parse h
      → HasTasks h
  unfolding find_channel
  Reach-HasTasks to_bytes parse (begin env) j n q = absurd (ground arith)
  Reach-HasTasks to_bytes parse (outside r env) j n q = Reach-HasTasks to_bytes parse r j n q
  Reach-HasTasks to_bytes parse (on_wire {h} r e) j n q =
      on_channel-HasTasks h e (Reach-HasTasks to_bytes parse r) j n q
  Reach-HasTasks to_bytes parse (authenticate {h} r e idle) j n q =
      elim (on_auth-Concluded state to_bytes parse h e) [
        | inl no_ ↦ rw no_.tasks (Reach-HasTasks to_bytes parse r j n (rw no_.channels at q))
        | inr (u, g, v, yes_) ↦
            rw yes_.tasks (Reach-HasTasks to_bytes parse r j n (rw yes_.channels at q))
      ]

  launch-IsRouted :
      (h : Handler Env Child) (id : ℕ) (command : Command) (interactive : Bool) (user : String)
      (child : Child)
      → HasTasks h
      → h.authenticated_user ≡ some user
      → (state.spawner h.env (spec_for h user id command interactive)).0 ≡ ok child
      → IsRouted id (length h.tasks) (launch_session state h id command interactive)
        × (nth (length h.tasks) (launch_session state h id command interactive).tasks
            ≡ some (new_task state id interactive child))
  launch-IsRouted h id command interactive user child all in_ started =
      let (c, t) = launch_session-put state h id command interactive user child in_ started in
      let to : (j : ℕ)
          → tx j (launch_session state h id command interactive)
            ≡ (if eqb id j then some (length h.tasks) else tx j h) =
        λ j. rw c (tx-put_channel id j _ h.channels) in
      (
        record {
          here = ground (arith, to id);
          alone = λ j q. ground (arith, to j, all j (length h.tasks));
        },
        rw t (nth-length h.tasks _),
      )

  -- After a successful launch on a channel of a connection that a client can bring about, and
  -- until another launch on it, the new task receives exactly what the client sends on the
  -- channel, in order, whatever the client does on others.
  pub nth-launch_session :
      {WireCert : Type 0} (to_bytes : WireCert → Result String Bytes)
      (parse : Bytes → Result CertError Cert) {h : Handler Env Child}
      (r : Reach state to_bytes parse h) (id : ℕ) (command : Command) (interactive : Bool)
      (user : String) (child : Child) (es : List ChannelEvent)
      → h.authenticated_user ≡ some user
      → (state.spawner h.env (spec_for h user id command interactive)).0 ≡ ok child
      → All (λ e. launches e ≢ some id) es
      → nth (length h.tasks) (on_channels (launch_session state h id command interactive) es).tasks
        ≡ some (record {
          child = child;
          channel = id;
          interactive = interactive;
          control = messages id es;
        })
  nth-launch_session to_bytes parse {h} r id command interactive user child es in_ started k =
      let (routed, n) =
        launch-IsRouted h id command interactive user child (Reach-HasTasks to_bytes parse r) in_
          started in
      on_channels-nth es (launch_session state h id command interactive) id (length h.tasks)
        (new_task state id interactive child) k routed n
