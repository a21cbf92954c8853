-- ===== src/System/Stalled.antt =====
-- One connection together with the task of one of its sessions: the handler of server.rs with its
-- bounded control channels, and the session's loop and stdin pump of session.rs.
use esesaetsch.Base.{
  ℕ, Bool, true, false, Option, none, some, List, [], ◌∷◌, if◌then◌else◌, eqb, ◌≡◌, refl, sym, ◌∙◌,
  ap, inl, inr, arith, Option-cases, some-injective, subst, All,
}
use esesaetsch.Crates.{Bytes}
use esesaetsch.Pty.{PtyChild}
use esesaetsch.Server.Types.{ServerState, ControlMsg}
use esesaetsch.Server.Events.{ChannelEvent}
use esesaetsch.Server.Control.{Link, LinkEvent, callback, received, dropped, step_link}
use esesaetsch.Server.Control.Held.{IsElsewhere, IsHeld, step_link-IsHeld, no_callback}
use esesaetsch.Session.Loop.{control}
use esesaetsch.Session.Stdin.{SessionTask, TaskEvent, in_session, is_over, step_task}
use esesaetsch.Session.Stdin.Blocked.{IsStalled, IsUnread, step_task-IsStalled, blocked-arms}

pub data JointEvent : Type 0 where
  in_connection : LinkEvent → JointEvent
  in_task : TaskEvent → JointEvent
  -- the session's loop receives the next message
  handed : ControlMsg → JointEvent

-- A receive of the session is a step of both, and its receiver goes when its loop is over.
abbrev pub is_own : ℕ → Bool → LinkEvent → Bool
is_own i over (callback e) = true
is_own i over (received k) = if eqb k i then false else true
is_own i over (dropped k) = if eqb k i then over else true

abbrev pub is_handed : TaskEvent → Bool
is_handed (in_session (control (some msg))) = true
is_handed _ = false

is_own-IsElsewhere : (i : ℕ) (e : LinkEvent) → is_own i false e ≡ true → IsElsewhere i e
is_own-IsElsewhere i (callback e) h = tt
is_own-IsElsewhere i (received k) h = ground arith
is_own-IsElsewhere i (dropped k) h = ground arith

module _ {Env Child Cert Reader Writer Wait : Type 0} (state : ServerState Env Cert Child)
    (ops : PtyChild Child Reader Writer Wait) (i : ℕ) where
  abbrev pub Joint : Type 0
  Joint = Link Env Child × SessionTask Child

  abbrev pub both : Option (Link Env Child) → Option (SessionTask Child) → Option Joint
  both none t = none
  both (some l) none = none
  both (some l) (some t) = some (l, t)

  -- The connection, and the task of its session `i`.
  unfoldable pub step_joint : Joint → JointEvent → Option Joint
  step_joint (l, t) (in_connection e) =
      if is_own i (is_over t.session.phase) e then both (step_link state l e) (some t) else none
  step_joint (l, t) (in_task e) = if is_handed e then none else both (some l) (step_task ops t e)
  step_joint (l, t) (handed msg) =
      both (step_link state l (received i)) (step_task ops t (in_session (control (some msg))))

  unfoldable pub run_joint : Joint → List JointEvent → Option Joint
  run_joint j [] = some j
  run_joint j (e ∷ events) = elim (step_joint j e) [ none ↦ none | some k ↦ run_joint k events ]

  -- The child does not read what the pump writes.
  abbrev pub IsUnreadHere : JointEvent → Type 0
  IsUnreadHere (in_task e) = IsUnread e
  IsUnreadHere _ = Unit

  both-some :
      (l : Option (Link Env Child)) (t : Option (SessionTask Child)) (k : Joint)
      → both l t ≡ some k
      → (l ≡ some k.0) × (t ≡ some k.1)
  both-some none t k h = absurd (ground arith)
  both-some (some l) none k h = absurd (ground arith)
  both-some (some l) (some t) k h =
      let same : (l, t) ≡ k = some-injective _ _ h in
      (ap (λ j. some j.0) same, ap (λ j. some j.1) same)

  if-some :
      (b : Bool) (x : Option Joint) (k : Joint)
      → (if b then x else none) ≡ some k
      → (b ≡ true) × (x ≡ some k)
  if-some true x k h = (refl, h)
  if-some false x k h = absurd (ground arith)

  if-none :
      (b : Bool) (x : Option Joint) (k : Joint) → (if b then none else x) ≡ some k → x ≡ some k
  if-none true x k h = absurd (ground arith)
  if-none false x k h = h

  module _ (e : ChannelEvent) (waiting chunk : Bytes) where
    abbrev pub IsStuck : Joint → Type 0
    IsStuck (l, t) = IsHeld state i e l × IsStalled waiting chunk t

    step_joint-IsStuck :
        (j k : Joint) (ev : JointEvent)
        → IsUnreadHere ev
        → IsStuck j
        → step_joint j ev ≡ some k
        → IsStuck k × (k.0.handler ≡ j.0.handler)
    unfolding step_joint
    step_joint-IsStuck (l, t) (l', t') (in_connection ev) n (held, stalled) h =
        let (own, ran) = if-some (is_own i (is_over t.session.phase) ev) _ (l', t') h in
        let (made, same) = both-some (step_link state l ev) (some t) (l', t') ran in
        let elsewhere = is_own-IsElsewhere i ev (rw stalled.phase at own) in
        let (held', kept) = step_link-IsHeld state i e l l' ev elsewhere held made in
        ((held', subst (IsStalled waiting chunk) (some-injective _ _ same) stalled), kept)
    step_joint-IsStuck (l, t) (l', t') (in_task ev) n (held, stalled) h =
        let ran = if-none (is_handed ev) _ (l', t') h in
        let (same, made) = both-some (some l) (step_task ops t ev) (l', t') ran in
        let (stalled', _) = step_task-IsStalled ops waiting chunk t t' ev n stalled made in
        let eq = some-injective _ _ same in
        ((subst (IsHeld state i e) eq held, stalled'), ap (λ m. m.handler) (sym eq))
    step_joint-IsStuck (l, t) (l', t') (handed msg) n (held, stalled) h =
        let (_, made) =
          both-some (step_link state l (received i))
            (step_task ops t (in_session (control (some msg)))) (l', t') h in
        let (_, deaf) = blocked-arms ops waiting chunk t stalled.blocked in
        absurd (let q = deaf (some msg) in ground arith)

    -- One child that does not read its input stops its whole connection. Where a callback waits for a
    -- place in the control channel of a session, whose loop waits to send a chunk to a pump that is
    -- writing to the child, then, whatever else occurs as long as the child does not read, all three
    -- go on waiting, the handler does not change, and no callback of any channel can be run.
    pub run_joint-IsStuck :
        (events : List JointEvent) (j k : Joint)
        → All IsUnreadHere events
        → IsStuck j
        → run_joint j events ≡ some k
        → IsStuck k
          × (k.0.handler ≡ j.0.handler)
          × ((e' : ChannelEvent) → step_joint k (in_connection (callback e')) ≡ none)
    unfolding run_joint step_joint
    run_joint-IsStuck [] (l, t) (l', t') n (held, stalled) h =
        let same = some-injective _ _ h in
        let stuck = subst IsStuck same (held, stalled) in
        (
          stuck,
          ap (λ m. m.0.handler) (sym same),
          λ e'. rw (no_callback state i e l' stuck.0 e') refl,
        )
    run_joint-IsStuck (ev ∷ events) j k (here, later) x h = elim (Option-cases (step_joint j ev)) [
      | inl none_left ↦ absurd (ground arith)
      | inr (m, made) ↦
          let (y, same) = step_joint-IsStuck j m ev here x made in
          let (z, same', deaf) = run_joint-IsStuck events m k later y (ground arith) in
          (z, same' ∙ same, deaf)
    ]
