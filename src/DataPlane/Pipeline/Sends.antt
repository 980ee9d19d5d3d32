-- ===== src/DataPlane/Pipeline/Sends.antt =====
-- What a request makes the data plane send to an upstream server.
use metamodels.Common.{◌≡◌, refl, ap, ◌⊎◌, inl, inr, Option, none, some, [], ◌∷◌, ◌++◌}
use metamodels.JsMap.{get}
use metamodels.Json.{Value}
use metamodels.Connectors.Breed.{RequestCtx, GuardResult, pass, deny, UpstreamResult}
use metamodels.Connectors.Ollama
use metamodels.Connectors.Ollama.{OllamaConstraint, route_group}
use metamodels.Connectors.Ollama.Guard.{Permits, guard-pass_iff, sent_on}
use metamodels.DataPlane.Proxy.{Flock, Outgoing, outgoing}
use metamodels.DataPlane.Proxy.Credential.{own_credential, outgoing-credential}
use metamodels.DataPlane.World.{ResolvedKey, ResolvedPaddock, World}
use metamodels.DataPlane.Breeds.{ollama_breed}
use metamodels.DataPlane.Pipeline.{Scope, Deps, proxy, relayed, guarded, run, run_breed, run_parsed}
use metamodels.DataPlane.Pipeline.Gates.{scope_of}

-- A request that an Ollama paddock may send for a caller: one that its fence permits, as the guard sends
-- it on, with the flock's own credential.
pub record IsPermitted (fence : OllamaConstraint) (ctx : RequestCtx) (flock : Flock)
    (out : Outgoing) : Type 0 where
  pub permits : Permits ctx fence (route_group ctx.path)
  pub sends : out ≡ outgoing flock (sent_on ctx (route_group ctx.path))
  pub credential : get out.headers "authorization" ≡ own_credential flock

relayed-sent :
    {C : Type 0} (deps : Deps C) (scope : Scope C) (ctx : RequestCtx) (o : Option UpstreamResult)
    (w : World)
    → (relayed deps scope ctx (o, w)).1.sent ≡ w.sent
relayed-sent deps scope ctx none w = refl
relayed-sent deps scope ctx (some r) w = refl

module _ (parse : Value → Option OllamaConstraint) (deps : Deps OllamaConstraint)
    (key : ResolvedKey) (p : ResolvedPaddock) (ctx : RequestCtx) (w : World) where
  abbrev pub scope : Scope OllamaConstraint
  scope = scope_of key p (ollama_breed parse)

  -- The state after a request whose fence is read as `o`.
  abbrev pub SendsPermitted : Option OllamaConstraint → World → Type 0
  SendsPermitted o w' =
      (w'.sent ≡ w.sent)
      ⊎ ((fence : OllamaConstraint) × (out : Outgoing) × (o ≡ some fence)
          × IsPermitted fence ctx p.flock out
          × (w'.sent ≡ w.sent ++ out ∷ []))

  guarded-SendsPermitted :
      (fence : OllamaConstraint) (g : GuardResult)
      → get ctx.headers "authorization" ≡ none
      → Ollama.guard ctx fence ≡ g
      → SendsPermitted (some fence) (guarded deps scope ctx g w).1
  guarded-SendsPermitted fence (deny status reason) plain e = inl refl
  guarded-SendsPermitted fence (pass req) plain e =
      let (permits, same) = (guard-pass_iff ctx fence req).0 e in
      inr (
        fence,
        outgoing p.flock req,
        refl,
        record {
          permits = permits;
          sends = ap (outgoing p.flock) same;
          credential =
              rw same (outgoing-credential p.flock (sent_on ctx (route_group ctx.path)) plain);
        },
        relayed-sent deps scope ctx (proxy deps scope req w).0 (proxy deps scope req w).1,
      )

  run_parsed-SendsPermitted :
      (o : Option OllamaConstraint)
      → get ctx.headers "authorization" ≡ none
      → SendsPermitted o (run_parsed deps scope ctx o w).1
  unfolding run_breed
  run_parsed-SendsPermitted none plain = inl refl
  run_parsed-SendsPermitted (some fence) plain =
      guarded-SendsPermitted fence (Ollama.guard ctx fence) plain refl

-- Whatever a caller asks of an Ollama paddock without an `authorization` of its own, the pipeline sends
-- at most one request upstream, and only one that the paddock's fence permits, unchanged but for the
-- usage report, with the flock's credential and no other.
pub run-SendsPermitted :
    (parse : Value → Option OllamaConstraint) (deps : Deps OllamaConstraint) (key : ResolvedKey)
    (p : ResolvedPaddock) (ctx : RequestCtx) (w : World)
    → get ctx.headers "authorization" ≡ none
    → SendsPermitted parse deps key p ctx w
        (parse p.fence.constraint_json)
        (run deps (scope_of key p (ollama_breed parse)) ctx w).1
unfolding run
run-SendsPermitted parse deps key p ctx w plain =
    run_parsed-SendsPermitted parse deps key p ctx w (parse p.fence.constraint_json) plain
