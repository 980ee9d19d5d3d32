-- ===== src/Connectors/Ollama/Guard.antt =====
-- What the guard lets through, and what it sends on.
use metamodels.Common.{
  String, ◌≡◌, refl, sym, ap, ◌∙◌, ◌≢◌, ◌↔◌, ◌⊎◌, inl, inr, true, some, List, arith, if◌then◌else◌,
  Bool-cases, Option-cases, In, includes→In, In→includes,
}
use metamodels.Json.{Value, undefined, str, prop}
use metamodels.Connectors.Breed.{RequestCtx, RewrittenRequest, pass}
use metamodels.Connectors.Ollama.{
  RouteGroup, chat, read, mutate, unknown, OllamaConstraint, same_group, includes_group,
  route_group, ollama_model_allowed, model_permitted, usage_body, route_guard, guard_group, guard,
}

-- A fence with a list of models admits a request that names one of them.
abbrev pub MayUse : OllamaConstraint → Value → Type 0
MayUse fence model =
    (models : List String)
    → fence.allowed_models ≡ some models
    → (m : String) × (model ≡ str m) × In m models

-- What the operator's fence asks of a request: a route of a group that it lists, and, unless the
-- route only reads, a model that it admits.
pub record Permits (ctx : RequestCtx) (fence : OllamaConstraint) (g : RouteGroup) : Type 0 where
  pub listed : includes_group fence.allowed_routes g ≡ true
  pub no_mutation : g ≢ mutate
  pub known : g ≢ unknown
  pub model : (g ≡ read) ⊎ MayUse fence (prop ctx.body "model")

model_permitted_sound :
    (fence : OllamaConstraint) (model : Value)
    → model_permitted fence model ≡ true
    → MayUse fence model
unfolding model_permitted ollama_model_allowed
model_permitted_sound fence (str m) h models e = (m, refl, includes→In models m (ground arith))
model_permitted_sound fence undefined h models e = absurd (ground arith)
model_permitted_sound fence _ h models e = absurd (ground arith)

model_permitted_complete :
    (fence : OllamaConstraint) (model : Value)
    → MayUse fence model
    → model_permitted fence model ≡ true
unfolding model_permitted ollama_model_allowed
model_permitted_complete fence model may = elim (Option-cases fence.allowed_models) [
  | inl any_model ↦ rw any_model
  | inr (models, e) ↦
      let (m, same, listed) = may models e in rw (same, e) (In→includes models m listed)
]

same_group-read : (g : RouteGroup) → same_group g read ≡ true → g ≡ read
same_group-read read h = refl
same_group-read chat h = cc
same_group-read _ h = cc

-- What is sent on: the request as it came, but for the usage report of a streamed inference.
abbrev pub sent_on : RequestCtx → RouteGroup → RewrittenRequest
sent_on ctx g = record {
  method = ctx.method;
  path = ctx.path;
  headers = ctx.headers;
  body = if same_group g read then ctx.body else usage_body ctx.path ctx.body;
}

module _ (ctx : RequestCtx) (fence : OllamaConstraint) where
  route_guard_sound :
      (g : RouteGroup) (r : RewrittenRequest)
      → g ≢ mutate
      → g ≢ unknown
      → route_guard g ctx fence ≡ pass r
      → Permits ctx fence g × (r ≡ sent_on ctx g)
  unfolding route_guard
  route_guard_sound g r m u h = elim (Bool-cases (same_group g read)) [
    | inl reads ↦ (
      record {
        listed = ground (arith);
        no_mutation = m;
        known = u;
        model = inl (same_group-read g reads);
      },
      ground arith,
    )
    | inr infers ↦ (
      record {
        listed = ground (arith);
        no_mutation = m;
        known = u;
        model = inr (model_permitted_sound fence (prop ctx.body "model") (ground arith));
      },
      ground arith,
    )
  ]

  route_guard_complete :
      (g : RouteGroup) → Permits ctx fence g → route_guard g ctx fence ≡ pass (sent_on ctx g)
  unfolding route_guard
  route_guard_complete g p = elim (Bool-cases (same_group g read)) [
    | inl reads ↦ rw (p.listed, reads)
    | inr infers ↦ elim p.model [
      | inl reads ↦ rw (p.listed, reads)
      | inr may ↦ rw (p.listed, infers, model_permitted_complete fence (prop ctx.body "model") may)
    ]
  ]

  guard_group_sound :
      (g : RouteGroup) (r : RewrittenRequest)
      → guard_group g ctx fence ≡ pass r
      → Permits ctx fence g × (r ≡ sent_on ctx g)
  unfolding guard_group
  guard_group_sound mutate r h = cc
  guard_group_sound unknown r h = cc
  guard_group_sound g r h = route_guard_sound g r (cc) (cc) h

  guard_group_complete :
      (g : RouteGroup) → Permits ctx fence g → guard_group g ctx fence ≡ pass (sent_on ctx g)
  unfolding guard_group
  guard_group_complete mutate p = absurd (p.no_mutation refl)
  guard_group_complete unknown p = absurd (p.known refl)
  guard_group_complete g p = route_guard_complete g p

-- The guard lets a request through exactly when the fence permits it: its route is of a group that
-- the fence lists and neither manages models nor is unknown, and, unless it only reads, it names a
-- model that the fence admits. What is sent on keeps the method, the path, the headers and, but for
-- the usage report of a streamed inference, the body.
pub guard-pass_iff :
    (ctx : RequestCtx) (fence : OllamaConstraint) (r : RewrittenRequest)
    → (guard ctx fence ≡ pass r)
      ↔ (Permits ctx fence (route_group ctx.path) × (r ≡ sent_on ctx (route_group ctx.path)))
unfolding guard
guard-pass_iff ctx fence r = (
  guard_group_sound ctx fence (route_group ctx.path) r,
  λ (p, e). guard_group_complete ctx fence (route_group ctx.path) p ∙ ap pass (sym e),
)
