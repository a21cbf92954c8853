-- ===== src/Server/Tasks.antt =====
-- The tasks of one connection: what each channel callback leaves of them.
use esesaetsch.Base.{
  ℕ, zero, suc, Option, none, some, get_or, List, [], ◌∷◌, ◌++◌, String, ◌≡◌, refl, inl, inr, All,
  ok, arith, Result-cases,
}
use esesaetsch.Cert.{CertGrants, no_grants}
use esesaetsch.Pty.{Command, SpawnSpec}
use esesaetsch.Server.Types.{ServerState, Task, ControlMsg, Handler, send_control, send_to}
use esesaetsch.Server.Sessions.{
  channel_open_session, pty_request, spec_for, launch_session, is_interactive, shell_request,
  exec_request, data_received, window_change_request,
}
use esesaetsch.Server.Events.{
  ChannelEvent, open_session, pty, shell, exec, channel_data, window_change, on_channel,
}

module _ {Env Child Cert : Type 0} (state : ServerState Env Cert Child) where
  -- The task runs a child that the spawner gave for this user and these grants, with no
  -- environment of the client's.
  abbrev pub IsSpawnedFor : String → Option CertGrants → Task Child → Type 0
  IsSpawnedFor u g t =
      (env : Env) × (spec : SpawnSpec) × ((state.spawner env spec).0 ≡ ok t.child)
      × (spec.user ≡ u)
      × (spec.grants ≡ get_or g no_grants)
      × (spec.interactive ≡ t.interactive)
      × (spec.env ≡ [])

  send_control-All :
      (u : String) (g : Option CertGrants) (i : ℕ) (msg : ControlMsg) (tasks : List (Task Child))
      → All (IsSpawnedFor u g) tasks
      → All (IsSpawnedFor u g) (send_control i msg tasks)
  unfolding send_control
  send_control-All u g i msg [] h = tt
  send_control-All u g zero msg (t ∷ tasks) h = h
  send_control-All u g (suc i) msg (t ∷ tasks) (here, later) =
      (here, send_control-All u g i msg tasks later)

  send_to-All :
      (u : String) (g : Option CertGrants) (tx : Option ℕ) (msg : ControlMsg)
      (tasks : List (Task Child))
      → All (IsSpawnedFor u g) tasks
      → All (IsSpawnedFor u g) (send_to tx msg tasks)
  send_to-All u g none msg tasks h = h
  send_to-All u g (some i) msg tasks h = send_control-All u g i msg tasks h

  All-snoc :
      (u : String) (g : Option CertGrants) (tasks : List (Task Child)) (t : Task Child)
      → All (IsSpawnedFor u g) tasks
      → IsSpawnedFor u g t
      → All (IsSpawnedFor u g) (tasks ++ t ∷ [])
  All-snoc u g [] t h p = (p, tt)
  All-snoc u g (s ∷ tasks) t (here, later) p = (here, All-snoc u g tasks t later p)

  pub launch-All :
      (u : String) (h : Handler Env Child) (id : ℕ) (command : Command)
      → h.authenticated_user ≡ some u
      → All (IsSpawnedFor u h.cert_grants) h.tasks
      → All
          (IsSpawnedFor u h.cert_grants)
          (launch_session state h id command (is_interactive h id)).tasks
  unfolding launch_session
  launch-All u h id command in_ tasks =
      let spec = spec_for h u id command (is_interactive h id) in
      let launched = (launch_session state h id command (is_interactive h id)).tasks in
      elim (Result-cases (state.spawner h.env spec).0) [
        | inr (e, failed) ↦ let same : launched ≡ h.tasks = ground arith in rw same tasks
        | inl (child, started) ↦
            let task : Task Child = record {
              child = child;
              channel = id;
              interactive = is_interactive h id;
              control = [];
            } in
            let more : launched ≡ h.tasks ++ task ∷ [] = ground arith in
            rw more (
              All-snoc u h.cert_grants h.tasks task tasks
                (h.env, spec, started, refl, refl, refl, refl))
      ]

  pub on_channel-user :
      (h : Handler Env Child) (e : ChannelEvent)
      → ((on_channel state h e).authenticated_user ≡ h.authenticated_user)
        × ((on_channel state h e).cert_grants ≡ h.cert_grants)
  unfolding channel_open_session pty_request shell_request exec_request data_received
      window_change_request
  on_channel-user h (open_session id) = (refl, refl)
  on_channel-user h (pty id term c r pw ph) = (refl, refl)
  on_channel-user h _ = ground arith

  pub on_channel-All :
      (u : String) (h : Handler Env Child) (e : ChannelEvent)
      → h.authenticated_user ≡ some u
      → All (IsSpawnedFor u h.cert_grants) h.tasks
      → All (IsSpawnedFor u h.cert_grants) (on_channel state h e).tasks
  unfolding channel_open_session pty_request shell_request exec_request data_received
      window_change_request
  on_channel-All u h (open_session id) in_ tasks = tasks
  on_channel-All u h (pty id term c r pw ph) in_ tasks = tasks
  on_channel-All u h (shell id) in_ tasks = launch-All u h id Command.shell in_ tasks
  on_channel-All u h (exec id bytes) in_ tasks = launch-All u h id _ in_ tasks
  on_channel-All u h (channel_data id bytes) in_ tasks =
      send_to-All u h.cert_grants _ _ h.tasks tasks
  on_channel-All u h (window_change id c r) in_ tasks =
      send_to-All u h.cert_grants _ _ h.tasks tasks

  send_to-nil : (tx : Option ℕ) (msg : ControlMsg) → send_to {Child = Child} tx msg [] ≡ []
  unfolding send_control
  send_to-nil none msg = refl
  send_to-nil (some i) msg = refl

  pub on_channel-idle :
      (h : Handler Env Child) (e : ChannelEvent)
      → h.authenticated_user ≡ none
      → h.tasks ≡ []
      → (on_channel state h e).tasks ≡ []
  unfolding channel_open_session pty_request shell_request exec_request data_received
      window_change_request
  on_channel-idle h (open_session id) out empty = empty
  on_channel-idle h (pty id term c r pw ph) out empty = empty
  on_channel-idle h (channel_data id bytes) out empty = rw empty (send_to-nil _ _)
  on_channel-idle h (window_change id c r) out empty = rw empty (send_to-nil _ _)
  on_channel-idle h _ out empty = ground arith
