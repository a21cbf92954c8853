-- ===== src/Session/Drain.antt =====
-- The end of a session after the exit of its child.
use esesaetsch.Base.{
  ℕ, ◌+◌, ◌≤◌, ◌<◌, Option, none, some, List, [], ◌∷◌, String, ◌≡◌, ◌⊎◌, inl, inr, Result, arith,
  Option-cases,
}
use esesaetsch.Pty.{PtyChild, SessionExitStatus}
use esesaetsch.Session.Loop.{
  Phase, draining_stdout, draining_stderr, exited, Session, Event, stdout_chunk, stderr_chunk,
  stdout_end, stderr_end, child_exit, control, drain_timeout, step, run, exit_code,
}

abbrev timeouts_of : Event → ℕ
timeouts_of drain_timeout = 1
timeouts_of _ = 0

abbrev pub timeouts : List Event → ℕ
timeouts [] = 0
timeouts (e ∷ events) = timeouts_of e + timeouts events

abbrev code_of : Phase → Option ℕ
code_of (draining_stdout code) = some code
code_of (draining_stderr code) = some code
code_of (exited code) = some code
code_of _ = none

-- The waits for output that are not over.
abbrev waits : Phase → ℕ
waits (draining_stdout code) = 2
waits (draining_stderr code) = 1
waits _ = 0

module _ {Child Reader Writer Wait : Type 0} (ops : PtyChild Child Reader Writer Wait) where
  step-waits :
      (code : ℕ) (s s' : Session Child) (e : Event)
      → code_of s.phase ≡ some code
      → step ops s e ≡ some s'
      → (code_of s'.phase ≡ some code) × (timeouts_of e + waits s'.phase ≤ waits s.phase)
  unfolding step
  step-waits code s s' (stdout_chunk bytes) x h = (ground arith, ground arith)
  step-waits code s s' (stderr_chunk bytes) x h = (ground arith, ground arith)
  step-waits code s s' stdout_end x h = (ground arith, ground arith)
  step-waits code s s' stderr_end x h = (ground arith, ground arith)
  step-waits code s s' (child_exit res) x h = (ground arith, ground arith)
  step-waits code s s' (control msg) x h = (ground arith, ground arith)
  step-waits code s s' drain_timeout x h = (ground arith, ground arith)

  run-waits :
      (code : ℕ) (events : List Event) (s s' : Session Child)
      → code_of s.phase ≡ some code
      → run ops s events ≡ some s'
      → (code_of s'.phase ≡ some code) × (timeouts events + waits s'.phase ≤ waits s.phase)
  unfolding run
  run-waits code [] s s' x h = (ground arith, ground arith)
  run-waits code (e ∷ events) s s' x h = elim (Option-cases (step ops s e)) [
    | inl stuck ↦ absurd (ground arith)
    | inr (t, made) ↦
        let (x', fewer) = step-waits code s t e x made in
        let (x'', rest) = run-waits code events t s' x' (ground arith) in (x'', omega arith)
  ]

  step-child_exit :
      (s s' : Session Child) (res : Result String SessionExitStatus)
      → step ops s (child_exit res) ≡ some s'
      → (code_of s'.phase ≡ some (exit_code res)) × (waits s'.phase ≤ 2)
  unfolding step
  step-child_exit s s' res h = (ground arith, ground arith)

  -- A session that ends is over, or waits for output and can stop to wait.
  step-drain_timeout :
      (code : ℕ) (s : Session Child)
      → code_of s.phase ≡ some code
      → (s.phase ≡ exited code)
        ⊎ ((0 < waits s.phase) × ((t : Session Child) × (step ops s drain_timeout ≡ some t)))
  unfolding step
  step-drain_timeout code s x = elim (Option-cases (step ops s drain_timeout)) [
    | inl stuck ↦ inl (ground arith)
    | inr (t, can) ↦ inr (ground arith, (t, can))
  ]

  -- Once the exit of the child is seen, the session ends with its exit status whatever else occurs:
  -- at most two waits for the output time out, and while the session is not over, fewer have, and
  -- the wait that it is in can.
  pub run-child_exit :
      (s s' : Session Child) (res : Result String SessionExitStatus) (events : List Event)
      → run ops s (child_exit res ∷ events) ≡ some s'
      → (timeouts events ≤ 2)
        × ((s'.phase ≡ exited (exit_code res))
            ⊎ ((timeouts events < 2)
                × ((t : Session Child) × (step ops s' drain_timeout ≡ some t))))
  unfolding run
  run-child_exit s s' res events h = elim (Option-cases (step ops s (child_exit res))) [
    | inl stuck ↦ absurd (ground arith)
    | inr (t, made) ↦
        let (x, two) = step-child_exit s t res made in
        let (x', left) = run-waits (exit_code res) events t s' x (ground arith) in
        (
          omega arith,
          elim (step-drain_timeout (exit_code res) s' x') [
            | inl over ↦ inl over
            | inr (more, can) ↦ inr (omega arith, can)
          ],
        )
  ]
