-- ===== src/Server/Reach.antt =====
-- The connections that a client can bring about, and the invariant of their sessions. russh makes
-- no authentication callback once one was accepted; what lies outside may change at any time.
use esesaetsch.Base.{
  Option, none, some, List, [], ◌∷◌, String, ◌≡◌, refl, ◌∙◌, ◌⊎◌, inl, inr, All, Result, ok, arith,
}
use esesaetsch.Crates.{Bytes}
use esesaetsch.Error.{CertError}
use esesaetsch.Cert.{CertGrants}
use esesaetsch.Pty.{Command, SpawnSpec, effective_command}
use esesaetsch.Server.Types.{ServerState, Handler, new_client}
use esesaetsch.Server.Events.{AuthEvent, ChannelEvent, on_auth, on_channel}
use esesaetsch.Server.Reject.{Vouched, grants_after, on_auth-Concluded}
use esesaetsch.Server.Tasks.{IsSpawnedFor, on_channel-user, on_channel-All, on_channel-idle}

grants_after-none : (old g : Option CertGrants) → old ≡ none → grants_after old g ≡ g
grants_after-none old none h = h
grants_after-none old (some g) h = refl

module _ {Env Child Cert : Type 0} (state : ServerState Env Cert Child) where
  module _ {WireCert : Type 0} (to_bytes : WireCert → Result String Bytes)
      (parse : Bytes → Result CertError Cert) where
    pub data Reach : Handler Env Child → Type 0 where
      begin : (env : Env) → Reach (new_client env)
      authenticate :
          {h : Handler Env Child}
          → Reach h
          → (e : AuthEvent WireCert) → h.authenticated_user ≡ none
          → Reach (on_auth state to_bytes parse h e).1
      on_wire :
          {h : Handler Env Child} → Reach h → (e : ChannelEvent) → Reach (on_channel state h e)
      outside : {h : Handler Env Child} → Reach h → (env : Env) → Reach (record h { env = env })

    -- An authenticator of an enabled method vouched for the user on the way.
    unfoldable pub IsGranted :
        {h : Handler Env Child} → Reach h → String → Option CertGrants → Type 0
    IsGranted (begin env) u g = ⊥
    IsGranted (authenticate {h} r e idle) u g =
        Vouched state to_bytes parse h.env e u g ⊎ IsGranted r u g
    IsGranted (on_wire r e) u g = IsGranted r u g
    IsGranted (outside r env) u g = IsGranted r u g

    record IsIdle (h : Handler Env Child) : Type 0 where
      pub user : h.authenticated_user ≡ none
      pub grants : h.cert_grants ≡ none
      pub tasks : h.tasks ≡ []

    record IsServed (h : Handler Env Child) (r : Reach h) : Type 0 where
      pub name : String
      pub granted : IsGranted r name h.cert_grants
      pub user : h.authenticated_user ≡ some name
      pub tasks : All (IsSpawnedFor state name h.cert_grants) h.tasks

    Reach-inv : {h : Handler Env Child} (r : Reach h) → IsIdle h ⊎ IsServed h r
    unfolding IsGranted
    Reach-inv (begin env) = inl (record { user = refl; grants = refl; tasks = refl })
    Reach-inv (outside r env) = elim (Reach-inv r) [
      | inl i ↦ inl (record { user = i.user; grants = i.grants; tasks = i.tasks })
      | inr s ↦ inr (record { name = s.name; granted = s.granted; user = s.user; tasks = s.tasks })
    ]
    Reach-inv (on_wire {h} r e) =
        let (user, grants) = on_channel-user state h e in
        elim (Reach-inv r) [
          | inl i ↦ inl (record {
            user = user ∙ i.user;
            grants = grants ∙ i.grants;
            tasks = on_channel-idle state h e i.user i.tasks;
          })
          | inr s ↦ inr (record {
            name = s.name;
            granted = rw grants s.granted;
            user = user ∙ s.user;
            tasks = rw grants (on_channel-All state s.name h e s.user s.tasks);
          })
        ]
    Reach-inv (authenticate {h} r e idle) = elim (Reach-inv r) [
      | inr s ↦ absurd (ground arith)
      | inl i ↦ elim (on_auth-Concluded state to_bytes parse h e) [
        | inl rejected ↦ inl (record {
          user = rejected.user ∙ i.user;
          grants = rejected.grants ∙ i.grants;
          tasks = rejected.tasks ∙ i.tasks;
        })
        | inr (u, g, vouched, accepted) ↦ inr (record {
          name = u;
          granted = inl (rw (accepted.grants ∙ grants_after-none h.cert_grants g i.grants) vouched);
          user = accepted.user;
          tasks = rw (accepted.tasks ∙ i.tasks) tt;
        })
      ]
    ]

    All-mono :
        {A : Type 0} (P Q : A → Type 0) (xs : List A) → ((x : A) → P x → Q x) → All P xs → All Q xs
    All-mono P Q [] f h = tt
    All-mono P Q (x ∷ xs) f (here, later) = (f x here, All-mono P Q xs f later)

    -- Either there is no session yet, or the user of the connection's sessions is the one as whom the
    -- client is authenticated.
    pub Reach_users :
        {h : Handler Env Child} (r : Reach h)
        → (h.tasks ≡ [])
          ⊎ ((u : String) × (g : Option CertGrants) × IsGranted r u g
              × (h.authenticated_user ≡ some u)
              × All (IsSpawnedFor state u g) h.tasks)
    Reach_users {h} r = elim (Reach-inv r) [
      | inl i ↦ inl i.tasks
      | inr s ↦ inr (s.name, h.cert_grants, s.granted, s.user, s.tasks)
    ]

    -- Whatever a client does, all the sessions of its connection run as one user, with the grants
    -- of one acceptance by an authenticator of an enabled method; before it there are none.
    pub Reach_sessions :
        {h : Handler Env Child} (r : Reach h)
        → (h.tasks ≡ [])
          ⊎ ((u : String) × (g : Option CertGrants) × IsGranted r u g
              × All (IsSpawnedFor state u g) h.tasks)
    Reach_sessions {h} r = elim (Reach-inv r) [
      | inl i ↦ inl i.tasks
      | inr s ↦ inr (s.name, h.cert_grants, s.granted, s.tasks)
    ]

    -- While the connection has the grants of a certificate with a forced command, every session of
    -- the connection was spawned to run that command, whatever the client asked for.
    pub Reach_forced :
        {h : Handler Env Child} (r : Reach h) (g : CertGrants) (fc : String)
        → h.cert_grants ≡ some g
        → g.force_command ≡ some fc
        → All
            (λ t.
              (env : Env) × (spec : SpawnSpec) × ((state.spawner env spec).0 ≡ ok t.child)
              × (effective_command spec ≡ Command.exec fc))
            h.tasks
    unfolding effective_command
    Reach_forced {h} r g fc granted forced_by = elim (Reach-inv r) [
      | inl i ↦ rw i.tasks tt
      | inr s ↦
          All-mono (IsSpawnedFor state s.name h.cert_grants) _ h.tasks
            (λ t (env, spec, started, _, grants, _, _). (env, spec, started, ground arith)) s.tasks
    ]
