-- ===== src/Server/Control/Held.antt =====
-- A connection whose callback waits for a session that takes no message.
use esesaetsch.Base.{
  ℕ, false, none, some, List, [], ◌∷◌, eqb, ◌≡◌, refl, sym, ◌∙◌, ap, inl, inr, arith, Option-cases,
  Bool-cases, some-injective, subst, All, ltb, ◌&&◌,
}
use esesaetsch.Server.Types.{ServerState}
use esesaetsch.Server.Events.{ChannelEvent}
use esesaetsch.Server.Control.{
  Link, LinkEvent, callback, received, dropped, target, messages_to, has_room, call, take,
  drop_receiver, step_link, run_link,
}

-- Nothing of the session itself: it takes no message, and its task does not end.
abbrev pub IsElsewhere : ℕ → LinkEvent → Type 0
IsElsewhere i (callback e) = Unit
IsElsewhere i (received k) = eqb k i ≡ false
IsElsewhere i (dropped k) = eqb k i ≡ false

module _ {Env Child Cert : Type 0} (state : ServerState Env Cert Child) (i : ℕ)
    (e : ChannelEvent) where
  -- The callback waits for the session, whose channel is full.
  pub record IsHeld (l : Link Env Child) : Type 0 where
    pub waiting : l.waiting ≡ some e
    pub target_is : target l.handler e ≡ some i
    pub full : has_room l (some i) ≡ false

  call-IsHeld :
      (l m : Link Env Child)
      → IsHeld l
      → m.handler ≡ l.handler
      → m.receivers i ≡ l.receivers i
      → IsHeld (call state e m) × ((call state e m).handler ≡ l.handler)
  call-IsHeld l m held same there =
      let full : has_room m (target m.handler e) ≡ false =
        rw (same, held.target_is, there) held.full in
      let waits : Link Env Child = record m { waiting = some e } in
      let kept : IsHeld waits = record {
        waiting = refl;
        target_is = rw same held.target_is;
        full = rw (same, there) held.full;
      } in
      rw (full, call) (kept, same)

  pub step_link-IsHeld :
      (l u : Link Env Child) (ev : LinkEvent)
      → IsElsewhere i ev
      → IsHeld l
      → step_link state l ev ≡ some u
      → IsHeld u × (u.handler ≡ l.handler)
  unfolding step_link
  step_link-IsHeld l u (callback e') n held h =
      absurd (let k = rw held.waiting at h in ground arith)
  step_link-IsHeld l u (received k) n held h =
      elim (Bool-cases
        ((l.receivers k).is_open && ltb (l.receivers k).taken (messages_to k l.handler.tasks))) [
          | inr idle ↦ absurd (let q = rw idle at h in ground arith)
          | inl ready ↦
              let same : call state e (take state k l) ≡ u =
                some-injective _ _ (rw held.waiting at (rw ready at h)) in
              subst (λ v. IsHeld v × (v.handler ≡ l.handler)) same
                (call-IsHeld l (take state k l) held refl (rw n refl))
        ]
  step_link-IsHeld l u (dropped k) n held h =
      let same : call state e (drop_receiver state k l) ≡ u =
        some-injective _ _ (rw held.waiting at h) in
      subst (λ v. IsHeld v × (v.handler ≡ l.handler)) same
        (call-IsHeld l (drop_receiver state k l) held refl (rw n refl))

  pub no_callback :
      (l : Link Env Child) → IsHeld l → (e' : ChannelEvent) → step_link state l (callback e') ≡ none
  unfolding step_link
  no_callback l held e' = rw held.waiting refl

  -- While a callback waits for a session whose channel is full, and the session takes no message and
  -- does not end, the whole connection stands still, whatever its other sessions do: the handler
  -- does not change, and no callback of any channel can be run.
  pub run_link-IsHeld :
      (events : List LinkEvent) (l u : Link Env Child)
      → All (IsElsewhere i) events
      → IsHeld l
      → run_link state l events ≡ some u
      → IsHeld u
        × (u.handler ≡ l.handler)
        × ((e' : ChannelEvent) → step_link state u (callback e') ≡ none)
  unfolding run_link
  run_link-IsHeld [] l u n held h =
      let same = some-injective _ _ h in
      let held' = subst IsHeld same held in
      (held', ap (λ k. k.handler) (sym same), no_callback u held')
  run_link-IsHeld (ev ∷ events) l u (here, later) held h =
      elim (Option-cases (step_link state l ev)) [
        | inl stuck ↦ absurd (ground arith)
        | inr (v, made) ↦
            let (held', same) = step_link-IsHeld l v ev here held made in
            let (held'', same', none_left) =
              run_link-IsHeld events v u later held' (ground arith) in
            (held'', same' ∙ same, none_left)
      ]
