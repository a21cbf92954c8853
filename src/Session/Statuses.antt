-- ===== src/Session/Statuses.antt =====
-- session.rs: the exit statuses among what a session has sent to the client.
use esesaetsch.Base.{
  ℕ, Bool, true, false, Option, none, some, some-injective, subst, List, [], ◌∷◌, ◌++◌, ◌≡◌, refl,
  sym, ◌∙◌, arith, Bool-cases, Option-cases, inl, inr, if◌then◌else◌, append_assoc, append-nil, ap,
}
use esesaetsch.Pty.{PtyChild}
use esesaetsch.Server.Types.{ControlMsg, stdin, resize, close}
use esesaetsch.Session.Loop.{
  ClientMsg, output, extended_output, exit_status, eof, close_channel, finished, detached, Phase,
  running, draining_stdout, draining_stderr, exited, hung_up, Session, Event, stdout_chunk,
  stderr_chunk, stdout_end, stderr_end, child_exit, control, drain_timeout, start, step, run,
  finish, drain_stderr, drain_stdout, after_stdout, after_stderr, time_out, on_control, exit_code,
  is_active,
}

abbrev status_in : ClientMsg → List ℕ
status_in (exit_status code) = code ∷ []
status_in _ = []

-- The codes of the exit statuses among these messages.
abbrev pub statuses : List ClientMsg → List ℕ
statuses [] = []
statuses (m ∷ msgs) = status_in m ++ statuses msgs

-- The exit statuses that a session in this phase has sent.
abbrev pub status_of : Phase → List ℕ
status_of (exited code) = code ∷ []
status_of _ = []

statuses-append : (a b : List ClientMsg) → statuses (a ++ b) ≡ statuses a ++ statuses b
statuses-append [] b = refl
statuses-append (m ∷ a) b =
    ap (λ t. status_in m ++ t) (statuses-append a b)
    ∙ sym (append_assoc (status_in m) (statuses a) (statuses b))

statuses-snoc :
    (msgs : List ClientMsg) (m : ClientMsg)
    → status_in m ≡ []
    → statuses (msgs ++ m ∷ []) ≡ statuses msgs
statuses-snoc msgs m silent = statuses-append msgs (m ∷ []) ∙ rw silent (rw append-nil refl)

module _ {Child : Type 0} where
  abbrev pub IsTold : Session Child → Type 0
  IsTold s = statuses s.client ≡ status_of s.phase

  finish-IsTold : (code : ℕ) (s : Session Child) → statuses s.client ≡ [] → IsTold (finish code s)
  finish-IsTold code s t =
      statuses-append s.client (exit_status code ∷ eof ∷ close_channel ∷ []) ∙ rw t refl

  drain_stderr-IsTold :
      (code : ℕ) (s : Session Child) → statuses s.client ≡ [] → IsTold (drain_stderr code s)
  drain_stderr-IsTold code s t = elim (Bool-cases (is_active s.stderr)) [
    | inl on ↦ rw on t
    | inr off ↦ rw off (finish-IsTold code s t)
  ]

  drain_stdout-IsTold :
      (code : ℕ) (s : Session Child) → statuses s.client ≡ [] → IsTold (drain_stdout code s)
  drain_stdout-IsTold code s t = elim (Bool-cases (is_active s.stdout)) [
    | inl on ↦ rw on t
    | inr off ↦ rw off (drain_stderr-IsTold code s t)
  ]

  after_stdout-IsTold :
      (p : Phase) (s : Session Child)
      → statuses s.client ≡ status_of p
      → IsTold (after_stdout p (record s { phase = p; stdout = finished }))
  after_stdout-IsTold running s t = t
  after_stdout-IsTold (draining_stdout code) s t =
      drain_stderr-IsTold code (record s { phase = draining_stdout code; stdout = finished }) t
  after_stdout-IsTold (draining_stderr code) s t = t
  after_stdout-IsTold (exited code) s t = t
  after_stdout-IsTold hung_up s t = t

  after_stderr-IsTold :
      (p : Phase) (s : Session Child)
      → statuses s.client ≡ status_of p
      → IsTold (after_stderr p (record s { phase = p; stderr = finished }))
  after_stderr-IsTold running s t = t
  after_stderr-IsTold (draining_stdout code) s t = t
  after_stderr-IsTold (draining_stderr code) s t =
      finish-IsTold code (record s { phase = draining_stderr code; stderr = finished }) t
  after_stderr-IsTold (exited code) s t = t
  after_stderr-IsTold hung_up s t = t

  abbrev Holds : Option (Session Child) → Type 0
  Holds none = Unit
  Holds (some s) = IsTold s

  Holds-if :
      (b : Bool) (s : Session Child) → (b ≡ true → IsTold s) → Holds (if b then some s else none)
  Holds-if true s h = h refl
  Holds-if false s h = tt

  time_out-Holds :
      (p : Phase) (s : Session Child)
      → statuses s.client ≡ status_of p
      → Holds (time_out p (record s { phase = p }))
  time_out-Holds running s t = tt
  time_out-Holds (draining_stdout code) s t =
      drain_stderr-IsTold code (record s { phase = draining_stdout code; stdout = detached }) t
  time_out-Holds (draining_stderr code) s t =
      finish-IsTold code (record s { phase = draining_stderr code; stderr = detached }) t
  time_out-Holds (exited code) s t = tt
  time_out-Holds hung_up s t = tt

module _ {Child Reader Writer Wait : Type 0} (ops : PtyChild Child Reader Writer Wait) where
  on_control-IsTold :
      (msg : Option ControlMsg) (s : Session Child)
      → statuses s.client ≡ []
      → s.phase ≡ running
      → IsTold (on_control ops msg s)
  on_control-IsTold none s t r = t
  on_control-IsTold (some close) s t r = t
  on_control-IsTold (some (resize cols rows)) s t r = rw r t
  on_control-IsTold (some (stdin bytes)) s t r = elim (Bool-cases s.has_writer) [
    | inl w ↦ rw w (rw r t)
    | inr w ↦ rw w (rw r t)
  ]

  step-Holds : (s : Session Child) (e : Event) → IsTold s → Holds (step ops s e)
  unfolding step
  step-Holds s (stdout_chunk bytes) t =
      Holds-if _ _ λ live. statuses-snoc s.client (output bytes) refl ∙ t
  step-Holds s (stderr_chunk bytes) t =
      Holds-if _ _ λ live. statuses-snoc s.client (extended_output 1 bytes) refl ∙ t
  step-Holds s stdout_end t = Holds-if _ _ λ live. after_stdout-IsTold s.phase s t
  step-Holds s stderr_end t = Holds-if _ _ λ live. after_stderr-IsTold s.phase s t
  step-Holds s (child_exit res) t = Holds-if _ _ λ ready.
      let r : s.phase ≡ running = ground arith in drain_stdout-IsTold (exit_code res) s (rw r at t)
  step-Holds s (control msg) t =
      Holds-if _ _
        λ ready. let r : s.phase ≡ running = ground arith in on_control-IsTold msg s (rw r at t) r
  step-Holds s drain_timeout t = time_out-Holds s.phase s t

  run-IsTold :
      (events : List Event) (s s' : Session Child)
      → run ops s events ≡ some s'
      → IsTold s
      → IsTold s'
  unfolding run
  run-IsTold [] s s' h t = subst IsTold (some-injective _ _ h) t
  run-IsTold (e ∷ events) s s' h t = elim (Option-cases (step ops s e)) [
    | inl stuck ↦ absurd (ground arith)
    | inr (s₁, made) ↦ run-IsTold events s₁ s' (ground arith) (subst Holds made (step-Holds s e t))
  ]

  -- A session has sent the client the exit status of its phase: none until it is over, and then one.
  pub run-statuses :
      (child : Child) (interactive : Bool) (events : List Event) (s : Session Child)
      → run ops (start ops child interactive) events ≡ some s
      → statuses s.client ≡ status_of s.phase
  unfolding start
  run-statuses child interactive events s h = run-IsTold events _ s h refl
