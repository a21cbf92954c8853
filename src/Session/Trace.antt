-- ===== src/Session/Trace.antt =====
-- What the client and the child are sent over a whole session.
use esesaetsch.Base.{
  ℕ, Bool, true, false, Option, none, some, some-injective, subst, Some, List, [], ◌∷◌, ◌++◌,
  String, ◌≡◌, ◌≢◌, refl, ◌⊎◌, inl, inr, All, Result, arith, Option-cases, append_assoc, append-nil,
  ◌∙◌, ℤ, pos, negsuc, ok, err,
}
use esesaetsch.Crates.{Bytes}
use esesaetsch.Pty.{PtyChild, SessionExitStatus}
use esesaetsch.Server.Types.{stdin}
use esesaetsch.Session.Loop.{
  Phase, draining_stdout, draining_stderr, exited, Session, Event, child_exit, control,
  drain_timeout, start, step, run, exit_code,
}
use esesaetsch.Session.Statuses.{statuses, status_of, run-statuses}
use esesaetsch.Session.Orderly.{IsTranscript, IsOrderly, Holds, step-Holds}

abbrev code_of : Phase → Option ℕ
code_of (draining_stdout code) = some code
code_of (draining_stderr code) = some code
code_of (exited code) = some code
code_of _ = none

-- The exit status for what waiting for the child gave: 1 if that failed, and otherwise the child's
-- code, or 0 if there is none or it is negative.
abbrev pub IsStatusOf : Result String SessionExitStatus → ℕ → Type 0
IsStatusOf (err e) status = status ≡ 1
IsStatusOf (ok exit) status =
    ((n : ℕ) × (exit.code ≡ some (pos n)) × (status ≡ n))
    ⊎ (((exit.code ≡ none) ⊎ ((n : ℕ) × (exit.code ≡ some (negsuc n)))) × (status ≡ 0))

-- The event is an exit of the child that has this exit status.
abbrev pub IsReported : ℕ → Event → Type 0
IsReported status e =
    (res : Result String SessionExitStatus) × (e ≡ child_exit res) × IsStatusOf res status

code-IsStatusOf :
    (code : Option ℤ) (exit : SessionExitStatus)
    → exit.code ≡ code
    → IsStatusOf (ok exit) (exit_code (ok exit))
unfolding exit_code
code-IsStatusOf none exit c = inr (inl c, rw c refl)
code-IsStatusOf (some (pos n)) exit c = inl (n, c, rw c refl)
code-IsStatusOf (some (negsuc n)) exit c = inr (inr (n, c), rw c refl)

exit_code-IsStatusOf : (res : Result String SessionExitStatus) → IsStatusOf res (exit_code res)
unfolding exit_code
exit_code-IsStatusOf (err e) = refl
exit_code-IsStatusOf (ok exit) = code-IsStatusOf exit.code exit refl

exited-cases :
    (p : Phase)
    → (status_of p ≡ []) ⊎ ((code : ℕ) × (code_of p ≡ some code) × (status_of p ≡ code ∷ []))
exited-cases (exited code) = inr (code, refl, refl)
exited-cases p = inl (ground arith)

abbrev pub chunk_of : Event → List Bytes
chunk_of (control (some (stdin bytes))) = bytes ∷ []
chunk_of _ = []

abbrev pub stdin_chunks : List Event → List Bytes
stdin_chunks [] = []
stdin_chunks (e ∷ events) = chunk_of e ++ stdin_chunks events

module _ {Child Reader Writer Wait : Type 0} (ops : PtyChild Child Reader Writer Wait) where
  start-IsOrderly : (child : Child) (interactive : Bool) → IsOrderly (start ops child interactive)
  unfolding start
  start-IsOrderly child interactive = ground arith

  run-IsOrderly :
      (events : List Event) (s s' : Session Child)
      → All (λ e. e ≢ drain_timeout) events
      → run ops s events ≡ some s'
      → IsOrderly s
      → IsOrderly s'
  unfolding run
  run-IsOrderly [] s s' n h o = subst IsOrderly (some-injective _ _ h) o
  run-IsOrderly (e ∷ events) s s' (here, later) h o = elim (Option-cases (step ops s e)) [
    | inl stuck ↦ absurd (ground arith)
    | inr (t, made) ↦
        run-IsOrderly events t s' later (ground arith)
          (subst (Holds ops) made (step-Holds ops s e here o))
  ]

  step-code :
      (s s' : Session Child) (e : Event) (code : ℕ)
      → step ops s e ≡ some s'
      → code_of s'.phase ≡ some code
      → (code_of s.phase ≡ some code) ⊎ IsReported code e
  unfolding step
  step-code s s' (child_exit res) code h c =
      let same : exit_code res ≡ code = ground arith in
      inr (res, refl, subst (IsStatusOf res) same (exit_code-IsStatusOf res))
  step-code s s' e code h c = inl (ground arith)

  run-code :
      (events : List Event) (s s' : Session Child) (code : ℕ)
      → run ops s events ≡ some s'
      → code_of s'.phase ≡ some code
      → (code_of s.phase ≡ some code) ⊎ Some (IsReported code) events
  unfolding run
  run-code [] s s' code h c = inl (ground arith)
  run-code (e ∷ events) s s' code h c = elim (Option-cases (step ops s e)) [
    | inl stuck ↦ absurd (ground arith)
    | inr (t, made) ↦ elim (run-code events t s' code (ground arith) c) [
      | inr later ↦ inr (inr later)
      | inl before ↦ elim (step-code s t e code made before) [
        | inl earlier ↦ inl earlier
        | inr now ↦ inr (inl now)
      ]
    ]
  ]

  -- A session none of whose waits times out has sent output only, until it is over. If it is over
  -- by the child's exit, three messages come last: the exit status with which it is over, the end
  -- of file, and the close; if it is over by the end of the control channel, nothing comes after
  -- the output.
  pub run-IsTranscript :
      (child : Child) (interactive : Bool) (events : List Event) (s : Session Child)
      → All (λ e. e ≢ drain_timeout) events
      → run ops (start ops child interactive) events ≡ some s
      → IsTranscript s.phase s.client
  run-IsTranscript child interactive events s n h =
      (run-IsOrderly events _ s n h (start-IsOrderly child interactive)).transcript

  -- Whatever happens in a session, its client has been sent no exit status, or just one, and then
  -- the child exited and this is the status of that exit: 1 if waiting for the child failed, and
  -- otherwise the child's code, or 0 if there is none or it is negative.
  pub run-exit_status :
      (child : Child) (interactive : Bool) (events : List Event) (s : Session Child)
      → run ops (start ops child interactive) events ≡ some s
      → (statuses s.client ≡ [])
        ⊎ ((status : ℕ) × (statuses s.client ≡ status ∷ []) × Some (IsReported status) events)
  unfolding start
  run-exit_status child interactive events s h =
      let sent = run-statuses ops child interactive events s h in
      elim (exited-cases s.phase) [
        | inl over ↦ inl (sent ∙ over)
        | inr (status, p, over) ↦ inr (
          status,
          sent ∙ over,
          elim (run-code events _ s status h p) [ inl before ↦ absurd (ground arith) | inr e ↦ e ],
        )
      ]

  step-stdin :
      (s s' : Session Child) (e : Event)
      → s.has_writer ≡ true
      → step ops s e ≡ some s'
      → (s'.stdin_sent ≡ s.stdin_sent ++ chunk_of e) × (s'.has_writer ≡ true)
  unfolding step
  step-stdin s s' (control (some (stdin bytes))) w h = ground arith
  step-stdin s s' e w h =
      let same : s'.stdin_sent ≡ s.stdin_sent = ground arith in (rw append-nil same, ground arith)

  -- If the child has a writer, its stdin is sent, after what it was sent before, the chunks of the
  -- control messages among the events, in their order, and no others.
  pub run-stdin :
      (events : List Event) (s s' : Session Child)
      → s.has_writer ≡ true
      → run ops s events ≡ some s'
      → s'.stdin_sent ≡ s.stdin_sent ++ stdin_chunks events
  unfolding run
  run-stdin [] s s' w h = rw append-nil (ground arith)
  run-stdin (e ∷ events) s s' w h = elim (Option-cases (step ops s e)) [
    | inl stuck ↦ absurd (ground arith)
    | inr (t, made) ↦
        let (sent, w') = step-stdin s t e w made in
        let rest = run-stdin events t s' w' (ground arith) in
        rest ∙ (rw sent (append_assoc s.stdin_sent (chunk_of e) (stdin_chunks events)))
  ]

  step-no_writer :
      (s s' : Session Child) (e : Event)
      → s.has_writer ≡ false
      → step ops s e ≡ some s'
      → (s'.stdin_sent ≡ s.stdin_sent) × (s'.has_writer ≡ false)
  unfolding step
  step-no_writer s s' (control (some (stdin bytes))) w h = ground arith
  step-no_writer s s' e w h = ground arith

  -- Without a writer the child is sent nothing.
  pub run-no_writer :
      (events : List Event) (s s' : Session Child)
      → s.has_writer ≡ false
      → run ops s events ≡ some s'
      → (s'.stdin_sent ≡ s.stdin_sent) × (s'.has_writer ≡ false)
  unfolding run
  run-no_writer [] s s' w h = ground arith
  run-no_writer (e ∷ events) s s' w h = elim (Option-cases (step ops s e)) [
    | inl stuck ↦ absurd (ground arith)
    | inr (t, made) ↦
        let (same, w') = step-no_writer s t e w made in
        let (rest, w'') = run-no_writer events t s' w' (ground arith) in (rest ∙ same, w'')
  ]
