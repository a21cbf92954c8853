-- ===== src/Session/Orderly.antt =====
-- The invariant of a session whose waits do not time out: what it has sent, and its pumps.
use esesaetsch.Base.{
  ℕ, Bool, true, false, Option, none, some, List, [], ◌∷◌, ◌++◌, ◌≡◌, ◌≢◌, refl, ◌⊎◌, inl, inr, All,
  arith, Bool-cases, if◌then◌else◌,
}
use esesaetsch.Pty.{PtyChild}
use esesaetsch.Server.Types.{ControlMsg, stdin, resize, close}
use esesaetsch.Session.Loop.{
  ClientMsg, output, extended_output, exit_status, eof, close_channel, Pump, finished, detached,
  Phase, running, draining_stdout, draining_stderr, exited, hung_up, Session, Event, stdout_chunk,
  stderr_chunk, stdout_end, stderr_end, child_exit, control, drain_timeout, step, finish,
  drain_stderr, drain_stdout, after_stdout, after_stderr, abort, on_control, exit_code, is_active,
  is_alive,
}

-- Output of the child, on either stream.
abbrev pub IsOutput : ClientMsg → Type 0
IsOutput (output bytes) = Unit
IsOutput (extended_output t bytes) = t ≡ 1
IsOutput _ = ⊥

All-snoc :
    (msgs : List ClientMsg) (m : ClientMsg)
    → All IsOutput msgs
    → IsOutput m
    → All IsOutput (msgs ++ m ∷ [])
All-snoc [] m h p = (p, tt)
All-snoc (x ∷ msgs) m (here, later) p = (here, All-snoc msgs m later p)

-- The messages of a session that is in this phase: output, and after it the three messages that
-- end an exited session.
abbrev pub IsTranscript : Phase → List ClientMsg → Type 0
IsTranscript (exited code) client =
    (out : List ClientMsg) × (client ≡ out ++ exit_status code ∷ eof ∷ close_channel ∷ [])
    × All IsOutput out
IsTranscript _ client = All IsOutput client

-- No wait has timed out, and a session that is over has no pump.
abbrev pub IsQuiet : Phase → Pump → Pump → Type 0
IsQuiet running out err_ = (out ≢ detached) × (err_ ≢ detached)
IsQuiet (draining_stdout code) out err_ = (out ≢ detached) × (err_ ≢ detached)
IsQuiet (draining_stderr code) out err_ = (is_alive out ≡ false) × (err_ ≢ detached)
IsQuiet _ out err_ = (is_alive out ≡ false) × (is_alive err_ ≡ false)

pub record IsOrderly {Child : Type 0} (s : Session Child) : Type 0 where
  pub transcript : IsTranscript s.phase s.client
  pub quiet : IsQuiet s.phase s.stdout s.stderr

not_alive : (p : Pump) → is_active p ≡ false → p ≢ detached → is_alive p ≡ false
not_alive p h n = ground arith

finished-ne-detached : finished ≢ detached
finished-ne-detached e = cc

abort-not_alive : (p : Pump) → p ≢ detached → is_alive (abort p) ≡ false
abort-not_alive p n = ground arith

module _ {Child : Type 0} where
  finish-IsOrderly :
      (code : ℕ) (s : Session Child)
      → All IsOutput s.client
      → is_alive s.stdout ≡ false
      → is_alive s.stderr ≡ false
      → IsOrderly (finish code s)
  finish-IsOrderly code s outs out err_ = record {
    transcript = (s.client, refl, outs);
    quiet = (out, err_);
  }

  drain_stderr-IsOrderly :
      (code : ℕ) (s : Session Child)
      → All IsOutput s.client
      → is_alive s.stdout ≡ false
      → s.stderr ≢ detached
      → IsOrderly (drain_stderr code s)
  drain_stderr-IsOrderly code s outs out n = elim (Bool-cases (is_active s.stderr)) [
    | inl on ↦ rw on (record { transcript = outs; quiet = (out, n) })
    | inr off ↦ rw off (finish-IsOrderly code s outs out (not_alive s.stderr off n))
  ]

  drain_stdout-IsOrderly :
      (code : ℕ) (s : Session Child)
      → All IsOutput s.client
      → s.stdout ≢ detached
      → s.stderr ≢ detached
      → IsOrderly (drain_stdout code s)
  drain_stdout-IsOrderly code s outs m n = elim (Bool-cases (is_active s.stdout)) [
    | inl on ↦ rw on (record { transcript = outs; quiet = (m, n) })
    | inr off ↦ rw off (drain_stderr-IsOrderly code s outs (not_alive s.stdout off m) n)
  ]

  chunk-IsOrderly :
      (p : Phase) (s : Session Child) (m : ClientMsg)
      → IsOutput m
      → (is_alive s.stdout ≡ true) ⊎ (is_alive s.stderr ≡ true)
      → IsTranscript p s.client
      → IsQuiet p s.stdout s.stderr
      → IsOrderly (record s { phase = p; client = s.client ++ m ∷ [] })
  chunk-IsOrderly running s m out live t q = record {
    transcript = All-snoc s.client m t out;
    quiet = q;
  }
  chunk-IsOrderly (draining_stdout code) s m out live t q = record {
    transcript = All-snoc s.client m t out;
    quiet = q;
  }
  chunk-IsOrderly (draining_stderr code) s m out live t q = record {
    transcript = All-snoc s.client m t out;
    quiet = q;
  }
  chunk-IsOrderly (exited code) s m out live t q = absurd (ground arith)
  chunk-IsOrderly hung_up s m out live t q = absurd (ground arith)

  after_stdout-IsOrderly :
      (p : Phase) (s : Session Child)
      → IsTranscript p s.client
      → IsQuiet p s.stdout s.stderr
      → is_alive s.stdout ≡ true
      → IsOrderly (after_stdout p (record s { phase = p; stdout = finished }))
  after_stdout-IsOrderly running s t q live = record {
    transcript = t;
    quiet = (finished-ne-detached, q.1);
  }
  after_stdout-IsOrderly (draining_stdout code) s t q live =
      drain_stderr-IsOrderly code (record s { phase = draining_stdout code; stdout = finished }) t
        refl q.1
  after_stdout-IsOrderly (draining_stderr code) s t q live = absurd (ground arith)
  after_stdout-IsOrderly (exited code) s t q live = absurd (ground arith)
  after_stdout-IsOrderly hung_up s t q live = absurd (ground arith)

  after_stderr-IsOrderly :
      (p : Phase) (s : Session Child)
      → IsTranscript p s.client
      → IsQuiet p s.stdout s.stderr
      → is_alive s.stderr ≡ true
      → IsOrderly (after_stderr p (record s { phase = p; stderr = finished }))
  after_stderr-IsOrderly running s t q live = record {
    transcript = t;
    quiet = (q.0, finished-ne-detached);
  }
  after_stderr-IsOrderly (draining_stdout code) s t q live = record {
    transcript = t;
    quiet = (q.0, finished-ne-detached);
  }
  after_stderr-IsOrderly (draining_stderr code) s t q live =
      finish-IsOrderly code (record s { phase = draining_stderr code; stderr = finished }) t q.0
        refl
  after_stderr-IsOrderly (exited code) s t q live = absurd (ground arith)
  after_stderr-IsOrderly hung_up s t q live = absurd (ground arith)

module _ {Child Reader Writer Wait : Type 0} (ops : PtyChild Child Reader Writer Wait) where
  on_control-IsOrderly :
      (msg : Option ControlMsg) (s : Session Child)
      → All IsOutput s.client
      → s.stdout ≢ detached
      → s.stderr ≢ detached
      → s.phase ≡ running
      → IsOrderly (on_control ops msg s)
  on_control-IsOrderly none s outs m n r = record {
    transcript = outs;
    quiet = (abort-not_alive s.stdout m, abort-not_alive s.stderr n);
  }
  on_control-IsOrderly (some close) s outs m n r = record {
    transcript = outs;
    quiet = (abort-not_alive s.stdout m, abort-not_alive s.stderr n);
  }
  on_control-IsOrderly (some (resize cols rows)) s outs m n r = record {
    transcript = rw r outs;
    quiet = rw r (m, n);
  }
  on_control-IsOrderly (some (stdin bytes)) s outs m n r = elim (Bool-cases s.has_writer) [
    | inl w ↦ rw w (record { transcript = rw r outs; quiet = rw r (m, n) })
    | inr w ↦ rw w (record { transcript = rw r outs; quiet = rw r (m, n) })
  ]

  -- The session after a step, if the step can be made.
  abbrev pub Holds : Option (Session Child) → Type 0
  Holds none = Unit
  Holds (some s) = IsOrderly s

  Holds-if :
      (b : Bool) (s : Session Child) → (b ≡ true → IsOrderly s) → Holds (if b then some s else none)
  Holds-if true s h = h refl
  Holds-if false s h = tt

  pub step-Holds :
      (s : Session Child) (e : Event) → e ≢ drain_timeout → IsOrderly s → Holds (step ops s e)
  unfolding step
  step-Holds s (stdout_chunk bytes) n o =
      Holds-if _ _
        λ live. chunk-IsOrderly s.phase s (output bytes) tt (inl live) o.transcript o.quiet
  step-Holds s (stderr_chunk bytes) n o = Holds-if _ _ λ live.
      chunk-IsOrderly s.phase s (extended_output 1 bytes) refl (inr live) o.transcript o.quiet
  step-Holds s stdout_end n o =
      Holds-if _ _ λ live. after_stdout-IsOrderly s.phase s o.transcript o.quiet live
  step-Holds s stderr_end n o =
      Holds-if _ _ λ live. after_stderr-IsOrderly s.phase s o.transcript o.quiet live
  step-Holds s (child_exit res) n o = Holds-if _ _ λ ready.
      let r : s.phase ≡ running = ground arith in
      let quiet = rw r at o.quiet in
      drain_stdout-IsOrderly (exit_code res) s (rw r at o.transcript) quiet.0 quiet.1
  step-Holds s (control msg) n o = Holds-if _ _ λ ready.
      let r : s.phase ≡ running = ground arith in
      let quiet = rw r at o.quiet in
      on_control-IsOrderly msg s (rw r at o.transcript) quiet.0 quiet.1 r
  step-Holds s drain_timeout n o = absurd (n refl)
