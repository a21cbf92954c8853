-- ===== src/Server/Channels.antt =====
-- The channel callbacks: what a launch does on every branch, and which session a message reaches.
use esesaetsch.Base.{
  ℕ, Bool, true, none, some, get_or, List, [], ◌∷◌, ◌++◌, String, ◌≡◌, ◌≢◌, refl, ◌⊎◌, inl, inr, ok,
  err, eqb, ltb, ◌^◌, arith, length, if◌then◌else◌, Result-cases, Option-cases,
}
use esesaetsch.Crates.{Bytes}
use esesaetsch.Error.{SpawnError}
use esesaetsch.Cert.{no_grants}
use esesaetsch.Pty.{Command}
use esesaetsch.Server.Types.{
  ServerState, ChannelEntry, Task, ControlMsg, stdin, resize, exit_status, close_channel, Handler,
  find_channel, put_channel, entry_of, tx_of, clamp_u16, send_control,
}
use esesaetsch.Server.Sessions.{
  pty_request, spec_for, launch_session, is_interactive, data_received, window_change_request,
}

pub find-put_channel :
    (i j : ℕ) (entry : ChannelEntry) (channels : List (ℕ × ChannelEntry))
    → find_channel j (put_channel i entry channels)
      ≡ (if eqb i j then some entry else find_channel j channels)
unfolding find_channel put_channel
find-put_channel i j entry [] = refl
find-put_channel i j entry ((k, old) ∷ rest) = ground (arith, find-put_channel i j entry rest)

pub find-put_channel_self :
    (i : ℕ) (entry : ChannelEntry) (channels : List (ℕ × ChannelEntry))
    → find_channel i (put_channel i entry channels) ≡ some entry
find-put_channel_self i entry channels = ground (arith, find-put_channel i i entry channels)

pub find-put_channel_ne :
    (i j : ℕ) (entry : ChannelEntry) (channels : List (ℕ × ChannelEntry))
    → i ≢ j
    → find_channel j (put_channel i entry channels) ≡ find_channel j channels
find-put_channel_ne i j entry channels h = ground (arith, find-put_channel i j entry channels)

module _ {Child : Type 0} where
  -- A message sent to the newest task is the last that this task receives, and no other task
  -- receives it.
  send_control-last :
      (tasks : List (Task Child)) (t : Task Child) (msg : ControlMsg)
      → send_control (length tasks) msg (tasks ++ t ∷ [])
        ≡ tasks ++ record t { control = t.control ++ msg ∷ [] } ∷ []
  unfolding send_control
  send_control-last [] t msg = refl
  send_control-last (s ∷ tasks) t msg = rw (send_control-last tasks t msg)

-- A number where it fits 16 bits, and else the default.
abbrev pub if_16_bits : ℕ → ℕ → ℕ
if_16_bits n default = if ltb n (2 ^ 16) then n else default

clamp_u16-if_16_bits : (n default : ℕ) → clamp_u16 n default ≡ if_16_bits n default
clamp_u16-if_16_bits n default = ground arith

module _ {Env Child : Type 0} where
  -- A `pty-req` decides the terminal and the size of the next launch on its channel, each number
  -- replaced by a default if it does not fit 16 bits, and makes that launch interactive.
  pub spec_for-pty_request :
      (h : Handler Env Child) (id : ℕ) (term user : String) (c r pw ph : ℕ) (command : Command)
      (interactive : Bool)
      → (spec_for (pty_request h id term c r pw ph) user id command interactive ≡ record {
        user = user;
        term = term;
        size = record {
          cols = if_16_bits c 80;
          rows = if_16_bits r 24;
          pixel_w = if_16_bits pw 0;
          pixel_h = if_16_bits ph 0;
        };
        env = [];
        command = command;
        interactive = interactive;
        grants = get_or h.cert_grants no_grants;
      })
        × (is_interactive (pty_request h id term c r pw ph) id ≡ true)
  unfolding pty_request
  spec_for-pty_request h id term user c r pw ph command interactive = (
    rw find-put_channel_self (
        rw
          (
            clamp_u16-if_16_bits c 80,
            clamp_u16-if_16_bits r 24,
            clamp_u16-if_16_bits pw 0,
            clamp_u16-if_16_bits ph 0,
          )
          refl),
    rw find-put_channel_self refl,
  )

  -- It leaves the launches on the other channels as they were.
  pub spec_for-pty_request_ne :
      (h : Handler Env Child) (id other : ℕ) (term user : String) (c r pw ph : ℕ)
      (command : Command) (interactive : Bool)
      → id ≢ other
      → (spec_for (pty_request h id term c r pw ph) user other command interactive
          ≡ spec_for h user other command interactive)
        × (is_interactive (pty_request h id term c r pw ph) other ≡ is_interactive h other)
  unfolding pty_request
  spec_for-pty_request_ne h id other term user c r pw ph command interactive n =
      (rw (find-put_channel_ne _ _ _ _ n) refl, rw (find-put_channel_ne _ _ _ _ n) refl)

module _ {Env Child Cert : Type 0} (state : ServerState Env Cert Child) where
  -- A launch without an authenticated user asks nothing of the system, and one whose spawn fails
  -- starts no task: both send exit status 1 and close the channel, and send nothing else. A
  -- successful one starts one task and sends nothing.
  pub launch_session_outcome :
      (h : Handler Env Child) (id : ℕ) (command : Command) (interactive : Bool)
      → ((h.authenticated_user ≡ none)
          × (launch_session state h id command interactive
              ≡ record h { replies = h.replies ++ exit_status id 1 ∷ close_channel id ∷ [] }))
        ⊎ ((user : String) × (e : SpawnError) × (h.authenticated_user ≡ some user)
            × ((state.spawner h.env (spec_for h user id command interactive)).0 ≡ err e)
            × ((launch_session state h id command interactive).tasks ≡ h.tasks)
            × ((launch_session state h id command interactive).replies
                ≡ h.replies ++ exit_status id 1 ∷ close_channel id ∷ []))
        ⊎ ((user : String) × (child : Child) × (h.authenticated_user ≡ some user)
            × ((state.spawner h.env (spec_for h user id command interactive)).0 ≡ ok child)
            × ((launch_session state h id command interactive).tasks
                ≡ h.tasks
                  ++ record { child = child; channel = id; interactive = interactive; control = [] }
                    ∷ [])
            × ((launch_session state h id command interactive).replies ≡ h.replies))
  unfolding launch_session
  launch_session_outcome h id command interactive = elim (Option-cases h.authenticated_user) [
    | inl out ↦ inl (out, ground arith)
    | inr (user, in_) ↦
        elim (Result-cases (state.spawner h.env (spec_for h user id command interactive)).0) [
          | inr (e, failed) ↦ inr (inl (user, e, in_, failed, ground arith, ground arith))
          | inl (child, started) ↦ inr (inr (user, child, in_, started, ground arith, ground arith))
        ]
  ]

  abbrev started_task : Child → ℕ → Bool → List ControlMsg → Task Child
  started_task child id interactive control = record {
    child = child;
    channel = id;
    interactive = interactive;
    control = control;
  }

  launch_session-tx :
      (h : Handler Env Child) (id : ℕ) (command : Command) (interactive : Bool) (user : String)
      (child : Child)
      → h.authenticated_user ≡ some user
      → (state.spawner h.env (spec_for h user id command interactive)).0 ≡ ok child
      → (tx_of (find_channel id (launch_session state h id command interactive).channels)
          ≡ some (length h.tasks))
        × ((launch_session state h id command interactive).tasks
            ≡ h.tasks ++ started_task child id interactive [] ∷ [])
  unfolding launch_session
  launch_session-tx h id command interactive user child in_ started =
      let entry : ChannelEntry = record (entry_of id h.channels) {
        control_tx = some (length h.tasks);
      } in
      (ground (arith, find-put_channel_self id entry h.channels), ground arith)

  -- After a successful launch the bytes and the sizes that arrive on the channel go to the new
  -- task, also if the channel had a task before, and to no other.
  pub data_received-launch_session :
      (h : Handler Env Child) (id : ℕ) (command : Command) (interactive : Bool) (user : String)
      (child : Child) (bytes : Bytes) (c r : ℕ)
      → h.authenticated_user ≡ some user
      → (state.spawner h.env (spec_for h user id command interactive)).0 ≡ ok child
      → (window_change_request
          (data_received (launch_session state h id command interactive) id bytes)
          id
          c
          r).tasks
        ≡ h.tasks
          ++ record {
            child = child;
            channel = id;
            interactive = interactive;
            control = stdin bytes ∷ resize (clamp_u16 c 80) (clamp_u16 r 24) ∷ [];
          }
            ∷ []
  unfolding data_received window_change_request
  data_received-launch_session h id command interactive user child bytes c r in_ started =
      let (tx, tasks) = launch_session-tx h id command interactive user child in_ started in
      rw (tx, tasks)
        (rw (send_control-last h.tasks (started_task child id interactive []) (stdin bytes)) (
          send_control-last h.tasks (started_task child id interactive (stdin bytes ∷ []))
            (resize (clamp_u16 c 80) (clamp_u16 r 24))))
