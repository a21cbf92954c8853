-- ===== src/Session/Stdin/Blocked.antt =====
-- The control loop while it waits to send a chunk, and the child does not read its input.
use esesaetsch.Base.{
  Option, none, some, List, [], ◌∷◌, String, ◌≡◌, refl, inl, inr, All, subst, Result, arith,
  Option-cases, some-injective, ◌∙◌, ap, sym,
}
use esesaetsch.Crates.{Bytes}
use esesaetsch.Pty.{PtyChild, SessionExitStatus}
use esesaetsch.Server.Types.{ControlMsg}
use esesaetsch.Session.Loop
use esesaetsch.Session.Loop.{
  Session, Event, running, child_exit, control, stdout_chunk, stderr_chunk, stdout_end, stderr_end,
  drain_timeout,
}
use esesaetsch.Session.Stdin.{
  writing, SessionTask, TaskEvent, in_session, stdin_received, stdin_written, stdin_shut_down,
  step_task, run_task,
}

-- The loop waits to send a chunk, and the pump to write one.
pub record IsStalled {Child : Type 0} (waiting chunk : Bytes) (t : SessionTask Child) : Type 0 where
  pub phase : t.session.phase ≡ running
  pub pump : t.pump ≡ writing chunk
  pub blocked : t.blocked ≡ some waiting

-- The child does not read what the pump writes.
abbrev pub IsUnread : TaskEvent → Type 0
IsUnread (stdin_written done) = ⊥
IsUnread _ = Unit

module _ {Child Reader Writer Wait : Type 0} (ops : PtyChild Child Reader Writer Wait)
    (waiting chunk : Bytes) where
  pub step_task-IsStalled :
      (t u : SessionTask Child) (e : TaskEvent)
      → IsUnread e
      → IsStalled waiting chunk t
      → step_task ops t e ≡ some u
      → IsStalled waiting chunk u × (u.session.child ≡ t.session.child)
  unfolding step_task Loop.step
  step_task-IsStalled t u (in_session (stdout_chunk bytes)) n x h = ground arith
  step_task-IsStalled t u (in_session (stderr_chunk bytes)) n x h = ground arith
  step_task-IsStalled t u (in_session stdout_end) n x h = ground arith
  step_task-IsStalled t u (in_session stderr_end) n x h = ground arith
  step_task-IsStalled t u (in_session (child_exit res)) n x h = absurd (ground arith)
  step_task-IsStalled t u (in_session (control msg)) n x h = absurd (ground arith)
  step_task-IsStalled t u (in_session drain_timeout) n x h = absurd (ground arith)
  step_task-IsStalled t u stdin_received n x h = absurd (ground arith)
  step_task-IsStalled t u (stdin_written done) n x h = absurd n
  step_task-IsStalled t u stdin_shut_down n x h = absurd (ground arith)

  pub blocked-arms :
      (t : SessionTask Child)
      → t.blocked ≡ some waiting
      → ((res : Result String SessionExitStatus)
          → step_task ops t (in_session (child_exit res)) ≡ none)
        × ((msg : Option ControlMsg) → step_task ops t (in_session (control msg)) ≡ none)
  unfolding step_task
  blocked-arms t e = (λ res. rw e refl, λ msg. rw e refl)

  -- While the loop waits to send a chunk and the child does not read what the pump writes, the
  -- session runs on, whatever else occurs: the child is not killed, and neither its exit nor any
  -- control message, nor the end of the control channel, is seen.
  pub run_task-IsStalled :
      (events : List TaskEvent) (t u : SessionTask Child)
      → All IsUnread events
      → IsStalled waiting chunk t
      → run_task ops t events ≡ some u
      → IsStalled waiting chunk u
        × (u.session.child ≡ t.session.child)
        × ((res : Result String SessionExitStatus)
            → step_task ops u (in_session (child_exit res)) ≡ none)
        × ((msg : Option ControlMsg) → step_task ops u (in_session (control msg)) ≡ none)
  unfolding run_task
  run_task-IsStalled [] t u n x h =
      let same : t ≡ u = some-injective _ _ h in
      let y = subst (IsStalled waiting chunk) same x in
      let (exit_, msg) = blocked-arms u y.blocked in
      (y, ap (λ v. v.session.child) (sym same), exit_, msg)
  run_task-IsStalled (e ∷ events) t u (here, later) x h = elim (Option-cases (step_task ops t e)) [
    | inl stuck ↦ absurd (ground arith)
    | inr (v, made) ↦
        let (x', same) = step_task-IsStalled t v e here x made in
        let (y, same', exit_, msg) = run_task-IsStalled events v u later x' (ground arith) in
        (y, same' ∙ same, exit_, msg)
  ]
