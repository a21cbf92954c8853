-- ===== src/Session/Stdin/Refine.antt =====
-- The task with the bounded channel refines the session of Session.Loop, whose stdin takes every chunk
-- at once.
use esesaetsch.Base.{
  Bool, true, false, Option, none, some, List, [], ◌∷◌, ◌++◌, ◌≡◌, ◌≢◌, refl, sym, ap, inl, inr,
  arith, Option-cases, some-injective, append-nil, ◌∙◌, subst, if◌then◌else◌,
}
use esesaetsch.Crates.{Bytes}
use esesaetsch.Pty.{PtyChild}
use esesaetsch.Server.Types.{stdin, resize, close}
use esesaetsch.Session.Loop
use esesaetsch.Session.Loop.{
  Session, Event, child_exit, control, stdout_chunk, stderr_chunk, stdout_end, stderr_end,
  drain_timeout, Phase, running, draining_stdout, draining_stderr, exited, hung_up,
}
use esesaetsch.Session.Stdin.{
  waiting, ended, SessionTask, TaskEvent, in_session, stdin_received, stdin_written,
  stdin_shut_down, after_arm, start_task, step_task, run_task,
}
use esesaetsch.Session.Stdin.Bounded.{
  IsKept, IsBounded, Holds, IsKept-stdin, enqueue-IsBounded, receive-Holds, conclude_write-Holds,
  shut_down-Holds, Holds-unless, same-IsBounded,
}

abbrev session_event : TaskEvent → List Event
session_event (in_session e) = e ∷ []
session_event _ = []

-- What the session of the specification sees of the task's events.
abbrev pub session_events : List TaskEvent → List Event
session_events [] = []
session_events (e ∷ events) = session_event e ++ session_events events

module _ {Child Reader Writer Wait : Type 0} (ops : PtyChild Child Reader Writer Wait) where
  step-same :
      (s s' : Session Child) (e : Event)
      → ((bytes : Bytes) → e ≢ control (some (stdin bytes)))
      → Loop.step ops s e ≡ some s'
      → (s'.stdin_sent ≡ s.stdin_sent) × (s'.has_writer ≡ s.has_writer)
  unfolding Loop.step
  step-same s s' (control (some (stdin bytes))) n h = absurd (n bytes refl)
  step-same s s' (control (some (resize c r))) n h = ground arith
  step-same s s' (control (some close)) n h = ground arith
  step-same s s' (control none) n h = ground arith
  step-same s s' e n h = ground arith

  step-stdin :
      (s s' : Session Child) (bytes : Bytes)
      → Loop.step ops s (control (some (stdin bytes))) ≡ some s'
      → (s'.stdin_sent ≡ (if s.has_writer then s.stdin_sent ++ bytes ∷ [] else s.stdin_sent))
        × (s'.has_writer ≡ s.has_writer)
  unfolding Loop.step
  step-stdin s s' bytes h = (ground arith, ground arith)

  -- What the task is after an arm of the loop, or an event of an output pump.
  abbrev after_step :
      SessionTask Child → Event → Option (Session Child) → Option (SessionTask Child)
  after_step t e o = elim o [ none ↦ none | some s ↦ some (after_arm e (record t { session = s })) ]

  other-Holds :
      (t : SessionTask Child) (e : Event)
      → ((bytes : Bytes) → e ≢ control (some (stdin bytes)))
      → ((u : SessionTask Child) → after_arm e u ≡ u)
      → IsBounded t
      → Holds (after_step t e (Loop.step ops t.session e))
  other-Holds t e n arm v = elim (Option-cases (Loop.step ops t.session e)) [
    | inl stuck ↦ rw stuck tt
    | inr (s, made) ↦
        let (sent, w) = step-same t.session s e n made in
        rw made (rw (arm (record t { session = s })) (same-IsBounded t s v sent w))
  ]

  stdin-Holds :
      (t : SessionTask Child) (bytes : Bytes)
      → t.blocked ≡ none
      → IsBounded t
      → Holds (
          after_step t
            (control (some (stdin bytes)))
            (Loop.step ops t.session (control (some (stdin bytes)))))
  stdin-Holds t bytes free v =
      elim (Option-cases (Loop.step ops t.session (control (some (stdin bytes))))) [
        | inl stuck ↦ rw stuck tt
        | inr (s, made) ↦
            let (sent, w) = step-stdin t.session s bytes made in
            let kept : IsKept t.pump t.session.stdin_sent t.written t.queue =
              rw append-nil at (rw free at v.kept) in
            rw made (
              enqueue-IsBounded t.pump bytes (record t { session = s }) v.bound
                (IsKept-stdin t.pump t.session.has_writer _ _ t.written t.queue bytes v.writer sent
                  kept)
                (rw w v.writer) free)
      ]

  step_task-Holds :
      (t : SessionTask Child) (e : TaskEvent) → IsBounded t → Holds (step_task ops t e)
  unfolding step_task
  step_task-Holds t (in_session (control (some (stdin bytes)))) v =
      Holds-unless _ _ λ open_. stdin-Holds t bytes (ground arith) v
  step_task-Holds t (in_session (control (some (resize c r)))) v =
      Holds-unless _ _ λ open_.
        other-Holds t (control (some (resize c r))) (λ b q. ground (arith, q)) (λ u. refl) v
  step_task-Holds t (in_session (control (some close))) v =
      Holds-unless _ _
        λ open_. other-Holds t (control (some close)) (λ b q. ground (arith, q)) (λ u. refl) v
  step_task-Holds t (in_session (control none)) v =
      Holds-unless _ _
        λ open_. other-Holds t (control none) (λ b q. ground (arith, q)) (λ u. refl) v
  step_task-Holds t (in_session (child_exit res)) v =
      Holds-unless _ _
        λ open_. other-Holds t (child_exit res) (λ b q. ground (arith, q)) (λ u. refl) v
  step_task-Holds t (in_session (stdout_chunk bytes)) v =
      other-Holds t (stdout_chunk bytes) (λ b q. ground (arith, q)) (λ u. refl) v
  step_task-Holds t (in_session (stderr_chunk bytes)) v =
      other-Holds t (stderr_chunk bytes) (λ b q. ground (arith, q)) (λ u. refl) v
  step_task-Holds t (in_session stdout_end) v =
      other-Holds t stdout_end (λ b q. ground (arith, q)) (λ u. refl) v
  step_task-Holds t (in_session stderr_end) v =
      other-Holds t stderr_end (λ b q. ground (arith, q)) (λ u. refl) v
  step_task-Holds t (in_session drain_timeout) v =
      other-Holds t drain_timeout (λ b q. ground (arith, q)) (λ u. refl) v
  step_task-Holds t stdin_received v = Holds-unless _ _ λ on. receive-Holds t.pump t.queue t v
  step_task-Holds t (stdin_written done) v =
      Holds-unless _ _ λ on. conclude_write-Holds t.pump done t v
  step_task-Holds t stdin_shut_down v = Holds-unless _ _ λ on. shut_down-Holds t.pump t v

  begun-IsBounded :
      (w : Bool) (s : Session Child)
      → s.has_writer ≡ w
      → s.stdin_sent ≡ []
      → IsBounded (record {
        session = s;
        pump = if w then waiting else ended;
        queue = [];
        blocked = none;
        written = [];
      })
  begun-IsBounded true s w e = record { bound = omega arith; full = tt; kept = e; writer = w }
  begun-IsBounded false s w e = record {
    bound = omega arith;
    full = tt;
    kept = ([], e);
    writer = tt;
  }

  start_task-IsBounded :
      (child : Child) (interactive : Bool) → IsBounded (start_task ops child interactive)
  unfolding start_task
  start_task-IsBounded child interactive =
      begun-IsBounded _ (Loop.start ops child interactive) refl refl

  after_arm-session : (e : Event) (t : SessionTask Child) → (after_arm e t).session ≡ t.session
  after_arm-session (control (some (stdin bytes))) t = ground arith
  after_arm-session e t = ground arith

  -- The session's part of a step is a step of the session.
  step_task-session :
      (t u : SessionTask Child) (e : TaskEvent)
      → step_task ops t e ≡ some u
      → Loop.run ops t.session (session_event e) ≡ some u.session
  unfolding step_task Loop.run
  step_task-session t u (in_session e) h = elim (Option-cases (Loop.step ops t.session e)) [
    | inl stuck ↦ absurd (ground arith)
    | inr (s, made) ↦
        let after : after_arm e (record t { session = s }) ≡ u = ground arith in
        let same = after_arm-session e (record t { session = s }) in
        rw (made, Loop.run) (ap some (sym same ∙ ap (λ v. v.session) after))
  ]
  step_task-session t u stdin_received h = ground arith
  step_task-session t u (stdin_written done) h = ground arith
  step_task-session t u stdin_shut_down h = ground arith

  run-append :
      (es es' : List Event) (s s' : Session Child)
      → Loop.run ops s es ≡ some s'
      → Loop.run ops s (es ++ es') ≡ Loop.run ops s' es'
  unfolding Loop.run
  run-append [] es' s s' h = ap (λ r. Loop.run ops r es') (some-injective _ _ h)
  run-append (e ∷ es) es' s s' h = elim (Option-cases (Loop.step ops s e)) [
    | inl stuck ↦ absurd (ground arith)
    | inr (t, made) ↦ rw (made, Loop.run) (run-append es es' t s' (ground arith))
  ]

  run_task-IsBounded :
      (events : List TaskEvent) (t u : SessionTask Child)
      → IsBounded t
      → run_task ops t events ≡ some u
      → IsBounded u × (Loop.run ops t.session (session_events events) ≡ some u.session)
  unfolding run_task Loop.run
  run_task-IsBounded [] t u v h =
      let same : t ≡ u = some-injective _ _ h in
      (subst IsBounded same v, ap (λ w. some w.session) same)
  run_task-IsBounded (e ∷ events) t u v h = elim (Option-cases (step_task ops t e)) [
    | inl stuck ↦ absurd (ground arith)
    | inr (w, made) ↦
        let (v', rest) =
          run_task-IsBounded events w u (subst Holds made (step_task-Holds t e v)) (ground arith) in
        (v', run-append (session_event e) _ _ _ (step_task-session t w e made) ∙ rest)
  ]

  -- The task with its bounded channel does what a session does that hands each chunk to the child's
  -- stdin at once: the session of every run is that of the run of its session's events. In between
  -- at most 32 chunks are queued, the loop waits to send only while there are 32, and the chunks
  -- written are the first of those that the session sent; until a write fails, the others are the
  -- one that the pump writes, those queued, and the one that waits, in this order.
  pub run_task-refines :
      (child : Child) (interactive : Bool) (events : List TaskEvent) (t : SessionTask Child)
      → run_task ops (start_task ops child interactive) events ≡ some t
      → (Loop.run ops (Loop.start ops child interactive) (session_events events) ≡ some t.session)
        × IsBounded t
  unfolding start_task
  run_task-refines child interactive events t h =
      let (v, same) = run_task-IsBounded events _ t (start_task-IsBounded child interactive) h in
      (same, v)
