-- ===== src/Server/Control/Refine.antt =====
-- The bounded control channels: they hold no more than their capacity, and lose and reorder nothing.
use esesaetsch.Base.{
  Option, none, some, List, [], ◌∷◌, ◌++◌, ◌≡◌, refl, sym, ◌∙◌, ap, inl, inr, arith, Option-cases,
  Bool-cases, some-injective, ltb, ◌&&◌,
}
use esesaetsch.Server.Types.{ServerState, Handler}
use esesaetsch.Server.Events.{ChannelEvent, on_channel}
use esesaetsch.Server.Delivery.{on_channels}
use esesaetsch.Server.Control.Bounds.{IsBounded, run_link-IsBounded}
use esesaetsch.Server.Control.{
  Link, LinkEvent, callback, received, dropped, target, messages_to, has_room, call, resume, take,
  drop_receiver, step_link, run_link,
}

-- The callbacks that were called.
abbrev called : LinkEvent → List ChannelEvent
called (callback e) = e ∷ []
called _ = []

abbrev pub callbacks : List LinkEvent → List ChannelEvent
callbacks [] = []
callbacks (e ∷ events) = called e ++ callbacks events

abbrev pub pending : Option ChannelEvent → List ChannelEvent
pending none = []
pending (some e) = e ∷ []

module _ {Env Child Cert : Type 0} (state : ServerState Env Cert Child) where
  -- The handler once the callback that waits is through.
  abbrev pub settled : Link Env Child → Handler Env Child
  settled l = on_channels state l.handler (pending l.waiting)

  settled-call :
      (e : ChannelEvent) (l : Link Env Child)
      → settled (call state e l) ≡ on_channel state l.handler e
  settled-call e l = elim (Bool-cases (has_room l (target l.handler e))) [
    | inl room ↦ rw (room, call) refl
    | inr full ↦ rw (full, call) refl
  ]

  settled-resume :
      (w : Option ChannelEvent) (l : Link Env Child)
      → l.waiting ≡ w
      → settled (resume state w l) ≡ settled l
  settled-resume none l h = refl
  settled-resume (some e) l h = settled-call e l ∙ rw h refl

  on_channels-append :
      (xs ys : List ChannelEvent) (h : Handler Env Child)
      → on_channels state h (xs ++ ys) ≡ on_channels state (on_channels state h xs) ys
  on_channels-append [] ys h = refl
  on_channels-append (x ∷ xs) ys h = on_channels-append xs ys (on_channel state h x)

  step_link-settled :
      (l u : Link Env Child) (e : LinkEvent)
      → step_link state l e ≡ some u
      → settled u ≡ on_channels state (settled l) (called e)
  unfolding step_link
  step_link-settled l u (callback e) h = elim (Option-cases l.waiting) [
    | inl idle ↦
        let same : call state e l ≡ u = some-injective _ _ (rw idle at h) in
        ap settled (sym same) ∙ settled-call e l ∙ rw idle refl
    | inr (busy, waits) ↦ absurd (let k = rw waits at h in ground arith)
  ]
  step_link-settled l u (received i) h =
      elim (Bool-cases
        ((l.receivers i).is_open && ltb (l.receivers i).taken (messages_to i l.handler.tasks))) [
          | inl ready ↦
              ap settled (sym (some-injective _ _ (rw ready at h)))
              ∙ settled-resume l.waiting (take state i l) refl
          | inr idle ↦ absurd (let k = rw idle at h in ground arith)
        ]
  step_link-settled l u (dropped i) h =
      ap settled (sym (some-injective _ _ h))
      ∙ settled-resume l.waiting (drop_receiver state i l) refl

  run_link-settled :
      (events : List LinkEvent) (l u : Link Env Child)
      → run_link state l events ≡ some u
      → settled u ≡ on_channels state (settled l) (callbacks events)
  unfolding run_link
  run_link-settled [] l u h = ap settled (sym (some-injective _ _ h))
  run_link-settled (e ∷ events) l u h = elim (Option-cases (step_link state l e)) [
    | inl stuck ↦ absurd (ground arith)
    | inr (v, made) ↦
        run_link-settled events v u (ground arith)
        ∙ ap (λ k. on_channels state k (callbacks events)) (step_link-settled l v e made)
        ∙ sym (on_channels-append (called e) (callbacks events) (settled l))
  ]

  -- The bounded control channels do what channels without a bound do, save that one callback may
  -- wait: from a connection where none waits and every channel is within its bound, whatever the
  -- callbacks and the sessions' receives in between, the handler becomes, once the callback that
  -- waits is through, that of the callbacks run one after the other with no bound; and every
  -- channel stays within its bound.
  pub run_link-refines :
      (events : List LinkEvent) (l u : Link Env Child)
      → l.waiting ≡ none
      → IsBounded state l
      → run_link state l events ≡ some u
      → (settled u ≡ on_channels state l.handler (callbacks events)) × IsBounded state u
  run_link-refines events l u idle within ran = (
    run_link-settled events l u ran ∙ rw idle refl,
    run_link-IsBounded state events l u ran within,
  )
