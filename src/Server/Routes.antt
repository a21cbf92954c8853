-- ===== src/Server/Routes.antt =====
-- server.rs: which session task each channel sends to, over the events of one connection.
use esesaetsch.Base.{
  ℕ, zero, suc, ◌+◌, ◌<◌, Bool, Option, none, some, List, [], ◌∷◌, ◌++◌, String, ◌≡◌, refl, ◌⊎◌,
  inl, inr, ok, eqb, if◌then◌else◌, length, nth, arith, Result-cases, Option-cases, Bool-cases, ap,
  ◌∙◌, get_or,
}
use esesaetsch.Std.Utf8.{from_utf8_lossy}
use esesaetsch.Pty.{Command}
use esesaetsch.Server.Types.{
  ServerState, ChannelEntry, Task, ControlMsg, stdin, resize, Handler, find_channel, put_channel,
  entry_of, tx_of, clamp_u16, send_control, send_to, new_entry,
}
use esesaetsch.Server.Sessions.{
  channel_open_session, pty_request, spec_for, launch_session, is_interactive, shell_request,
  exec_request, data_received, window_change_request,
}
use esesaetsch.Server.Events.{
  ChannelEvent, open_session, pty, shell, exec, channel_data, window_change, on_channel,
}
use esesaetsch.Server.Channels.{find-put_channel}

-- The task that a channel sends to.
abbrev pub tx : {Env Child : Type 0} → ℕ → Handler Env Child → Option ℕ
tx id h = tx_of (find_channel id h.channels)

-- What a message of the client on the channel makes its task receive.
abbrev pub message : ℕ → ChannelEvent → List ControlMsg
message id (channel_data j bytes) = if eqb j id then stdin bytes ∷ [] else []
message id (window_change j c r) =
    if eqb j id then resize (clamp_u16 c 80) (clamp_u16 r 24) ∷ [] else []
message id _ = []

abbrev pub messages : ℕ → List ChannelEvent → List ControlMsg
messages id [] = []
messages id (e ∷ es) = message id e ++ messages id es

-- The channel on which the client asks for a session.
abbrev pub launches : ChannelEvent → Option ℕ
launches (shell id) = some id
launches (exec id bytes) = some id
launches _ = none

pub tx-put_channel :
    (i j : ℕ) (entry : ChannelEntry) (channels : List (ℕ × ChannelEntry))
    → tx_of (find_channel j (put_channel i entry channels))
      ≡ (if eqb i j then entry.control_tx else tx_of (find_channel j channels))
tx-put_channel i j entry channels = ground (arith, find-put_channel i j entry channels)

entry-tx : (o : Option ChannelEntry) → (get_or o new_entry).control_tx ≡ tx_of o
entry-tx none = refl
entry-tx (some entry) = refl

-- An entry put back with its sender leaves the routes as they are.
tx-put_channel_same :
    (i j : ℕ) (entry : ChannelEntry) (channels : List (ℕ × ChannelEntry))
    → entry.control_tx ≡ tx_of (find_channel i channels)
    → tx_of (find_channel j (put_channel i entry channels)) ≡ tx_of (find_channel j channels)
tx-put_channel_same i j entry channels e =
    tx-put_channel i j entry channels ∙ elim (Bool-cases (eqb i j)) [
      | inl same ↦
          let eq : i ≡ j = ground arith in
          rw same (e ∙ ap (λ k. tx_of (find_channel k channels)) eq)
      | inr other ↦ rw other refl
    ]

module _ {Child : Type 0} where
  length-send_control :
      (i : ℕ) (msg : ControlMsg) (tasks : List (Task Child))
      → length (send_control i msg tasks) ≡ length tasks
  unfolding send_control
  length-send_control i msg [] = refl
  length-send_control zero msg (t ∷ tasks) = refl
  length-send_control (suc i) msg (t ∷ tasks) = ap suc (length-send_control i msg tasks)

  length-send_to :
      (o : Option ℕ) (msg : ControlMsg) (tasks : List (Task Child))
      → length (send_to o msg tasks) ≡ length tasks
  length-send_to none msg tasks = refl
  length-send_to (some i) msg tasks = length-send_control i msg tasks

  pub nth-send_control :
      (k i : ℕ) (msg : ControlMsg) (tasks : List (Task Child)) (t : Task Child)
      → nth i tasks ≡ some t
      → nth i (send_control k msg tasks)
        ≡ some (if eqb k i then record t { control = t.control ++ msg ∷ [] } else t)
  unfolding send_control
  nth-send_control k i msg [] t h = absurd (ground arith)
  nth-send_control zero zero msg (s ∷ tasks) t h = ground arith
  nth-send_control zero (suc i) msg (s ∷ tasks) t h = ground arith
  nth-send_control (suc k) zero msg (s ∷ tasks) t h = ground arith
  nth-send_control (suc k) (suc i) msg (s ∷ tasks) t h =
      let same : eqb (suc k) (suc i) ≡ eqb k i = ground arith in
      rw same (nth-send_control k i msg tasks t h)

  pub nth-append :
      (i : ℕ) (xs ys : List (Task Child)) (t : Task Child)
      → nth i xs ≡ some t
      → nth i (xs ++ ys) ≡ some t
  nth-append i [] ys t h = absurd (ground arith)
  nth-append zero (x ∷ xs) ys t h = h
  nth-append (suc i) (x ∷ xs) ys t h = nth-append i xs ys t h

  pub nth-lt : (i : ℕ) (xs : List (Task Child)) (t : Task Child) → nth i xs ≡ some t → i < length xs
  nth-lt i [] t h = absurd (ground arith)
  nth-lt zero (x ∷ xs) t h = omega arith
  nth-lt (suc i) (x ∷ xs) t h = omega (arith, nth-lt i xs t h)

  pub length-snoc :
      (xs : List (Task Child)) (t : Task Child) → length (xs ++ t ∷ []) ≡ length xs + 1
  length-snoc [] t = omega arith
  length-snoc (x ∷ xs) t = omega (arith, length-snoc xs t)

  pub nth-length :
      (xs : List (Task Child)) (t : Task Child) → nth (length xs) (xs ++ t ∷ []) ≡ some t
  nth-length [] t = refl
  nth-length (x ∷ xs) t = nth-length xs t

module _ {Env Child : Type 0} where
  -- Every channel sends to a task that was started.
  abbrev pub HasTasks : Handler Env Child → Type 0
  HasTasks h = (j n : ℕ) → tx j h ≡ some n → n < length h.tasks

  -- The channel sends to this task, and no other channel does.
  pub record IsRouted (id i : ℕ) (h : Handler Env Child) : Type 0 where
    pub here : tx id h ≡ some i
    pub alone : (j : ℕ) → tx j h ≡ some i → j ≡ id

  -- The routes and the number of tasks are as they were, or a session was launched: a new task was
  -- started, to which its channel was routed.
  abbrev pub Routes : Option ℕ → Handler Env Child → Handler Env Child → Type 0
  Routes launched h h' =
      (((j : ℕ) → tx j h' ≡ tx j h) × (length h'.tasks ≡ length h.tasks))
      ⊎ ((id : ℕ) × (launched ≡ some id)
          × ((j : ℕ) → tx j h' ≡ (if eqb id j then some (length h.tasks) else tx j h))
          × (length h'.tasks ≡ length h.tasks + 1))

module _ {Env Child Cert : Type 0} (state : ServerState Env Cert Child) where
  abbrev pub new_task : ℕ → Bool → Child → Task Child
  new_task id interactive child = record {
    child = child;
    channel = id;
    interactive = interactive;
    control = [];
  }

  -- A launch leaves the channels and the tasks as they are, or routes its channel to a new task.
  abbrev pub Launched : Handler Env Child → ℕ → Bool → Handler Env Child → Type 0
  Launched h id interactive h' =
      ((h'.channels ≡ h.channels) × (h'.tasks ≡ h.tasks))
      ⊎ ((child : Child) × (h'.channels
            ≡ put_channel id
                (record (entry_of id h.channels) { control_tx = some (length h.tasks) }) h.channels)
          × (h'.tasks ≡ h.tasks ++ new_task id interactive child ∷ []))

  pub launch_session-put :
      (h : Handler Env Child) (id : ℕ) (command : Command) (interactive : Bool) (user : String)
      (child : Child)
      → h.authenticated_user ≡ some user
      → (state.spawner h.env (spec_for h user id command interactive)).0 ≡ ok child
      → ((launch_session state h id command interactive).channels
          ≡ put_channel id
              (record (entry_of id h.channels) { control_tx = some (length h.tasks) })
              h.channels)
        × ((launch_session state h id command interactive).tasks
            ≡ h.tasks ++ new_task id interactive child ∷ [])
  unfolding launch_session
  launch_session-put h id command interactive user child in_ started = (ground arith, ground arith)

  pub launch-Launched :
      (h : Handler Env Child) (id : ℕ) (command : Command) (interactive : Bool)
      → Launched h id interactive (launch_session state h id command interactive)
  launch-Launched h id command interactive = elim (Option-cases h.authenticated_user) [
    | inl out ↦ inl (unfold launch_session in ground arith, unfold launch_session in ground arith)
    | inr (user, in_) ↦
        elim (Result-cases (state.spawner h.env (spec_for h user id command interactive)).0) [
          | inr (e, failed) ↦
              inl (unfold launch_session in ground arith, unfold launch_session in ground arith)
          | inl (child, started) ↦
              let (c, t) = launch_session-put h id command interactive user child in_ started in
              inr (child, c, t)
        ]
  ]

  pub Launched-Routes :
      (h h' : Handler Env Child) (id : ℕ) (interactive : Bool)
      → Launched h id interactive h'
      → Routes (some id) h h'
  Launched-Routes h h' id interactive (inl (c, t)) = inl (λ j. rw c refl, rw t refl)
  Launched-Routes h h' id interactive (inr (child, c, t)) =
      inr (id, refl, λ j. rw c (tx-put_channel id j _ h.channels), rw t (length-snoc h.tasks _))

  pub Launched-nth :
      (h h' : Handler Env Child) (id i : ℕ) (interactive : Bool) (t : Task Child)
      → Launched h id interactive h'
      → nth i h.tasks ≡ some t
      → nth i h'.tasks ≡ some t
  Launched-nth h h' id i interactive t (inl (_, same)) n = rw same n
  Launched-nth h h' id i interactive t (inr (child, _, more)) n =
      rw more (nth-append i h.tasks _ t n)

  pub on_channel-Routes :
      (h : Handler Env Child) (e : ChannelEvent) → Routes (launches e) h (on_channel state h e)
  unfolding channel_open_session pty_request shell_request exec_request data_received
      window_change_request
  on_channel-Routes h (open_session id) =
      inl (λ j. tx-put_channel_same id j _ h.channels (entry-tx (find_channel id h.channels)), refl)
  on_channel-Routes h (pty id term c r pw ph) =
      inl (λ j. tx-put_channel_same id j _ h.channels (entry-tx (find_channel id h.channels)), refl)
  on_channel-Routes h (shell id) =
      Launched-Routes h (launch_session state h id Command.shell (is_interactive h id)) id _
        (launch-Launched h id Command.shell (is_interactive h id))
  on_channel-Routes h (exec id bytes) =
      Launched-Routes h
        (launch_session state h id (Command.exec (from_utf8_lossy bytes)) (is_interactive h id)) id
        _ (launch-Launched h id _ (is_interactive h id))
  on_channel-Routes h (channel_data id bytes) =
      inl (λ j. refl, length-send_to (tx id h) (stdin bytes) h.tasks)
  on_channel-Routes h (window_change id c r) = inl (λ j. refl, length-send_to (tx id h) _ h.tasks)
