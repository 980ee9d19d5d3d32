-- ===== src/DataPlane/App/Access.antt =====
-- Who is let in, and what a caller that is not learns and causes.
use mathlib.Core.Path.{subst}
use metamodels.Common.{
  append, String, ◌≡◌, refl, sym, ap, ◌∙◌, ◌⊎◌, inl, inr, true, false, Option, none, some, [],
  Bool-cases, or_else, ◌>>=◌, All, is_empty, after_slashes,
}
use metamodels.JsMap.{get}
use metamodels.Json.{Value, str, prop, get_field}
use metamodels.Connectors.Breed.{RequestCtx}
use metamodels.DataPlane.World.{ResolvedKey, ResolvedPaddock, World, Breed}
use metamodels.DataPlane.Pipeline.{Scope, Gate, Refusal, BreedOutcome, paddock_scope, limits, run}
use metamodels.DataPlane.Pipeline.Gates.{IsEntitled, scope_of, paddock_scope_iff, paddock_scope-key}
use metamodels.DataPlane.App.{
  HttpRequest, AppDeps, Answer, json, relayed, failed, content_headers, context, outcome_answer,
  extract_key, non_empty, no_key_matches, unauthorized_key, LiveKey, rejected, live, resolved,
  unexpired, is_expired, live_key, declared_over, read_body, ran, limited, gated, authenticated,
  polled_job, authenticated_poll, result_request, proxy_request,
}

-- The key that a request presents, if it presents one.
abbrev pub presented : HttpRequest → Option String
unfolding extract_key
presented req = non_empty (extract_key req.authorization req.x_api_key)

-- The store's record of the key that a request presents.
abbrev pub found_key : {C : Type 0} → AppDeps C → HttpRequest → Option ResolvedKey
found_key deps req = presented req >>= λ k. deps.resolve_key_by_hash (deps.hash_api_key k)

-- What must have passed before a request changes anything but the limiter: its key is live, its paddock
-- is the caller's to use, and the limits have room.
pub record IsGated {C : Type 0} (deps : AppDeps C) (req : HttpRequest) (w : World) : Type 0 where
  pub key : ResolvedKey
  pub p : ResolvedPaddock
  pub b : Breed C
  pub found : found_key deps req ≡ some key
  pub fresh : is_expired key.expires_at deps.pipeline.now ≡ false
  pub entitled : IsEntitled deps.pipeline key req.slug p b
  pub room : (limits deps.pipeline (scope_of key p b) w).0 ≡ none

-- No job, meter record or request upstream has come of a call.
abbrev pub IsQuiet : World → World → Type 0
IsQuiet w w' = (w'.jobs ≡ w.jobs) × (w'.meters ≡ w.meters) × (w'.sent ≡ w.sent)

module _ {C : Type 0} (deps : AppDeps C) (req : HttpRequest) where
  limits-IsQuiet : (scope : Scope C) (w : World) → IsQuiet w (limits deps.pipeline scope w).1
  unfolding limits
  limits-IsQuiet scope w = (refl, refl, refl)

  unexpired-live :
      (o : Option ResolvedKey) (key : ResolvedKey)
      → unexpired deps.pipeline.now o ≡ live key
      → (o ≡ some key) × (is_expired key.expires_at deps.pipeline.now ≡ false)
  unexpired-live none key h = cc
  unexpired-live (some k) key h = elim (Bool-cases (is_expired k.expires_at deps.pipeline.now)) [
    | inl old ↦ cc (rw old at h)
    | inr fresh ↦
        let same : k ≡ key = cc (rw fresh at h) in
        (
          ap some same,
          subst (λ (x : ResolvedKey). is_expired x.expires_at deps.pipeline.now ≡ false) same fresh,
        )
  ]

  resolved-live :
      (o : Option String) (key : ResolvedKey)
      → resolved deps o ≡ live key
      → ((o >>= λ k. deps.resolve_key_by_hash (deps.hash_api_key k)) ≡ some key)
        × (is_expired key.expires_at deps.pipeline.now ≡ false)
  resolved-live none key h = cc
  resolved-live (some k) key h =
      unexpired-live (deps.resolve_key_by_hash (deps.hash_api_key k)) key h

  -- After a call that changed anything but the limiter, the gates had been passed.
  abbrev Outcome : World → World → Type 0
  Outcome w w' = IsQuiet w w' ⊎ IsGated deps req w

  limited-Outcome :
      (key : ResolvedKey) (p : ResolvedPaddock) (b : Breed C) (w : World) (r : Option Refusal)
      → found_key deps req ≡ some key
      → is_expired key.expires_at deps.pipeline.now ≡ false
      → IsEntitled deps.pipeline key req.slug p b
      → (limits deps.pipeline (scope_of key p b) w).0 ≡ r
      → Outcome w
          (limited deps (scope_of key p b) req (r, (limits deps.pipeline (scope_of key p b) w).1)).1
  limited-Outcome key p b w (some r) found fresh entitled e =
      inl (limits-IsQuiet (scope_of key p b) w)
  limited-Outcome key p b w none found fresh entitled e = inr (record {
    key = key;
    p = p;
    b = b;
    found = found;
    fresh = fresh;
    entitled = entitled;
    room = e;
  })

  scoped-Outcome :
      (scope : Scope C) (w : World)
      → found_key deps req ≡ some scope.resolved_key
      → is_expired scope.resolved_key.expires_at deps.pipeline.now ≡ false
      → paddock_scope deps.pipeline scope.resolved_key req.slug ≡ Gate.scoped scope
      → Outcome w (gated deps req (Gate.scoped scope) w).1
  scoped-Outcome scope w found fresh e =
      limited-Outcome scope.resolved_key scope.paddock scope.breed w
        (limits deps.pipeline scope w).0 found fresh
        ((paddock_scope_iff deps.pipeline scope.resolved_key req.slug scope.paddock scope.breed).0
          e)
        refl

  gated-Outcome :
      (key : ResolvedKey) (w : World) (g : Gate C)
      → found_key deps req ≡ some key
      → is_expired key.expires_at deps.pipeline.now ≡ false
      → paddock_scope deps.pipeline key req.slug ≡ g
      → Outcome w (gated deps req g w).1
  gated-Outcome key w (Gate.refused r) found fresh e = inl (refl, refl, refl)
  gated-Outcome key w Gate.threw found fresh e = inl (refl, refl, refl)
  gated-Outcome key w (Gate.scoped scope) found fresh e =
      let same = paddock_scope-key deps.pipeline key req.slug scope e in
      scoped-Outcome scope w (found ∙ ap some same)
        (subst (λ (k : ResolvedKey). is_expired k.expires_at deps.pipeline.now ≡ false) same fresh)
        (subst (λ (k : ResolvedKey). paddock_scope deps.pipeline k req.slug ≡ Gate.scoped scope)
          same e)

  authenticated-Outcome :
      (k : LiveKey) (w : World) → live_key deps req ≡ k → Outcome w (authenticated deps req k w).1
  unfolding live_key
  authenticated-Outcome (rejected reason) w e = inl (refl, refl, refl)
  authenticated-Outcome (live key) w e =
      let (found, fresh) = resolved-live (presented req) key e in
      gated-Outcome key w (paddock_scope deps.pipeline key req.slug) found fresh refl

-- A request to the proxy that leaves a job, a meter record or a request upstream has passed every gate:
-- it presented a key that the store knows and that has not expired, its paddock is active, in the key's
-- scope and with a credential that opens, and neither the rate limit nor the quota was reached.
pub proxy_request-IsGated :
    {C : Type 0} (deps : AppDeps C) (req : HttpRequest) (w : World)
    → IsQuiet w (proxy_request deps req w).1 ⊎ IsGated deps req w
unfolding proxy_request
proxy_request-IsGated deps req w =
    elim (Bool-cases (declared_over deps.max_request_body_bytes req)) [
      | inl over ↦ rw over (inl (refl, refl, refl))
      | inr fits ↦ rw fits (authenticated-Outcome deps req (live_key deps req) w refl)
    ]

-- Why a presented key is not live: the store does not know it, or it has expired.
abbrev pub IsDead : {C : Type 0} → AppDeps C → String → Type 0
IsDead deps k =
    (deps.resolve_key_by_hash (deps.hash_api_key k) ≡ none)
    ⊎ ((key : ResolvedKey) × (deps.resolve_key_by_hash (deps.hash_api_key k) ≡ some key)
        × (is_expired key.expires_at deps.pipeline.now ≡ true))

module _ {C : Type 0} (deps : AppDeps C) (req : HttpRequest) (w : World) where
  dead-rejected :
      (k : String)
      → presented req ≡ some k
      → IsDead deps k
      → authenticated deps req (live_key deps req) w ≡ (unauthorized_key no_key_matches, w)
  unfolding live_key unauthorized_key
  dead-rejected k e (inl unknown) = rw (e, unknown) refl
  dead-rejected k e (inr (key, known, old)) = rw (e, known, old) refl

-- When a request does not declare a body over the limit, and presents a key that is unknown or has expired,
-- the answer is the same for both, that of a key which does not match, and nothing changes, the limiter
-- included.
pub proxy_request-dead :
    {C : Type 0} (deps : AppDeps C) (req : HttpRequest) (w : World) (k : String)
    → declared_over deps.max_request_body_bytes req ≡ false
    → presented req ≡ some k
    → IsDead deps k
    → proxy_request deps req w ≡ (unauthorized_key no_key_matches, w)
unfolding proxy_request
proxy_request-dead deps req w k fits e dead = rw fits (dead-rejected deps req w k e dead)

-- How the outcome of the pipeline is answered: a refusal with its status, an answer of the breed as it is, what
-- the upstream server said as it said it, and an exception as a failure.
abbrev pub IsAnswered : BreedOutcome → Answer → Type 0
IsAnswered (BreedOutcome.refused r) a =
    (body : Value) × (a ≡ json r.status r.headers body) × (prop body "error" ≡ str r.error)
IsAnswered (BreedOutcome.handled status body) a = a ≡ json status [] body
IsAnswered (BreedOutcome.proxied r) a = a ≡ relayed r
IsAnswered BreedOutcome.threw a = a ≡ failed

-- The request as the pipeline sees it: the path is what follows the slug, and of the headers there is at most
-- the content type, where it is not empty.
abbrev pub IsContext : HttpRequest → Value → RequestCtx → Type 0
IsContext req body ctx =
    (ctx.method ≡ req.method)
    × (ctx.body ≡ body)
    × (ctx.paddock_slug ≡ req.slug)
    × (ctx.path ≡ append "/" (after_slashes 3 req.path))
    × All (λ (h : String × String). h.0 ≡ "content-type") ctx.headers
    × (get ctx.headers "content-type" ≡ non_empty req.content_type)

content_headers-only :
    (o : Option String)
    → All (λ (h : String × String). h.0 ≡ "content-type") (content_headers (or_else o ""))
      × (get (content_headers (or_else o "")) "content-type" ≡ non_empty o)
unfolding get
content_headers-only none = (tt, refl)
content_headers-only (some s) = elim (Bool-cases (is_empty s)) [
  | inl empty ↦ rw empty (tt, refl)
  | inr full ↦ rw full ((refl, tt), refl)
]

context-IsContext : (req : HttpRequest) (body : Value) → IsContext req body (context req body)
unfolding context
context-IsContext req body =
    let (only, same) = content_headers-only req.content_type in (refl, refl, refl, refl, only, same)

outcome-IsAnswered : (o : BreedOutcome) → IsAnswered o (outcome_answer o)
unfolding prop get_field
outcome-IsAnswered (BreedOutcome.refused r) = (_, refl, refl)
outcome-IsAnswered (BreedOutcome.handled status body) = refl
outcome-IsAnswered (BreedOutcome.proxied r) = refl
outcome-IsAnswered BreedOutcome.threw = refl

limited-ran :
    {C : Type 0} (deps : AppDeps C) (req : HttpRequest) (scope : Scope C) (body : Value)
    (r : Option Refusal × World)
    → r.0 ≡ none
    → read_body deps.max_request_body_bytes req ≡ some body
    → limited deps scope req r ≡ ran deps scope req (some body) r.1
limited-ran deps req scope body (none, w) e reads = rw reads refl
limited-ran deps req scope body (some r, w) e reads = cc

live_key-found :
    {C : Type 0} (deps : AppDeps C) (req : HttpRequest) (key : ResolvedKey)
    → found_key deps req ≡ some key
    → is_expired key.expires_at deps.pipeline.now ≡ false
    → live_key deps req ≡ live key
unfolding live_key
live_key-found deps req key found fresh = live_of (presented req) found
  where
    live_of :
        (o : Option String)
        → (o >>= λ k. deps.resolve_key_by_hash (deps.hash_api_key k)) ≡ some key
        → resolved deps o ≡ live key
    live_of none h = cc
    live_of (some k) h = rw (h, fresh) refl

proxy_request-ran :
    {C : Type 0} (deps : AppDeps C) (req : HttpRequest) (w : World) (body : Value)
    (g : IsGated deps req w)
    → declared_over deps.max_request_body_bytes req ≡ false
    → read_body deps.max_request_body_bytes req ≡ some body
    → proxy_request deps req w
      ≡ ran deps
          (scope_of g.key g.p g.b)
          req
          (some body)
          (limits deps.pipeline (scope_of g.key g.p g.b) w).1
unfolding proxy_request
proxy_request-ran deps req w body g fits reads =
    rw
      (
        fits,
        live_key-found deps req g.key g.found g.fresh,
        (paddock_scope_iff deps.pipeline g.key req.slug g.p g.b).1 g.entitled,
      )
      (limited-ran deps req (scope_of g.key g.p g.b) body
        (limits deps.pipeline (scope_of g.key g.p g.b) w) g.room reads)

-- A request that passes every gate, and that neither declares nor has a body over the limit, is run by the
-- pipeline in the scope that the gates gave and the state that the limiter left, with its method, its path
-- after the slug, its content type, if it has one, as the only header, and its body. What changes is what this
-- run changes, and the answer is that of its outcome: a refusal with its status, headers and error, the breed's
-- answer, the upstream server's, or a failure.
pub proxy_request-runs :
    {C : Type 0} (deps : AppDeps C) (req : HttpRequest) (w : World) (body : Value)
    (g : IsGated deps req w)
    → declared_over deps.max_request_body_bytes req ≡ false
    → read_body deps.max_request_body_bytes req ≡ some body
    → (ctx : RequestCtx) × (outcome : BreedOutcome) × IsContext req body ctx
      × (run deps.pipeline
            (scope_of g.key g.p g.b)
            ctx
            (limits deps.pipeline (scope_of g.key g.p g.b) w).1
          ≡ (outcome, (proxy_request deps req w).1))
      × IsAnswered outcome (proxy_request deps req w).0
proxy_request-runs deps req w body g fits reads =
    let scope = scope_of g.key g.p g.b in
    let done = run deps.pipeline scope (context req body) (limits deps.pipeline scope w).1 in
    let ran_so = proxy_request-ran deps req w body g fits reads in
    (
      context req body,
      done.0,
      context-IsContext req body,
      ap (λ (a : Answer × World). (done.0, a.1)) (sym ran_so),
      subst (IsAnswered done.0) (ap (λ (a : Answer × World). a.0) (sym ran_so))
          (outcome-IsAnswered done.0),
    )

-- What must have passed before a poll for a job's result does anything.
pub record IsPollGated {C : Type 0} (deps : AppDeps C) (req : HttpRequest) : Type 0 where
  pub key : ResolvedKey
  pub p : ResolvedPaddock
  pub b : Breed C
  pub found : found_key deps req ≡ some key
  pub fresh : is_expired key.expires_at deps.pipeline.now ≡ false
  pub entitled : IsEntitled deps.pipeline key req.slug p b

module _ {C : Type 0} (deps : AppDeps C) (req : HttpRequest) (job_id : String) (w : World) where
  polled_job-IsPollGated :
      (key : ResolvedKey) (g : Gate C)
      → found_key deps req ≡ some key
      → is_expired key.expires_at deps.pipeline.now ≡ false
      → paddock_scope deps.pipeline key req.slug ≡ g
      → ((polled_job deps job_id g w).1 ≡ w) ⊎ IsPollGated deps req
  polled_job-IsPollGated key (Gate.refused r) found fresh e = inl refl
  polled_job-IsPollGated key Gate.threw found fresh e = inl refl
  polled_job-IsPollGated key (Gate.scoped scope) found fresh e =
      let same = paddock_scope-key deps.pipeline key req.slug scope e in
      inr (record {
        key = key;
        p = scope.paddock;
        b = scope.breed;
        found = found;
        fresh = fresh;
        entitled =
            (paddock_scope_iff deps.pipeline key req.slug scope.paddock scope.breed).0
              (e ∙ ap Gate.scoped (ap (λ k. scope_of k scope.paddock scope.breed) (sym same)));
      })

  authenticated_poll-IsPollGated :
      (k : LiveKey)
      → live_key deps req ≡ k
      → ((authenticated_poll deps req job_id k w).1 ≡ w) ⊎ IsPollGated deps req
  unfolding live_key
  authenticated_poll-IsPollGated (rejected reason) e = inl refl
  authenticated_poll-IsPollGated (live key) e =
      let (found, fresh) = resolved-live deps req (presented req) key e in
      polled_job-IsPollGated key (paddock_scope deps.pipeline key req.slug) found fresh refl

-- A poll for a job's result changes nothing at all unless it presented a key that the store knows and that
-- has not expired, of a paddock that is active, in the key's scope and with a credential that opens.
pub result_request-IsPollGated :
    {C : Type 0} (deps : AppDeps C) (req : HttpRequest) (job_id : String) (w : World)
    → ((result_request deps req job_id w).1 ≡ w) ⊎ IsPollGated deps req
unfolding result_request
result_request-IsPollGated deps req job_id w =
    elim (Bool-cases (declared_over deps.max_request_body_bytes req)) [
      | inl over ↦ rw over (inl refl)
      | inr fits ↦
          rw fits (authenticated_poll-IsPollGated deps req job_id w (live_key deps req) refl)
    ]
