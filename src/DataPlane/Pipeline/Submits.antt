-- ===== src/DataPlane/Pipeline/Submits.antt =====
-- What a request to a ComfyUI paddock makes the data plane send, record and meter.
use metamodels.Common.{
  ℕ, String, ◌≡◌, refl, ◌⊎◌, inl, inr, true, false, Option, some, List, [], ◌∷◌, ◌++◌, Bool-cases,
  any, All, All-append, ℤ,
}
use metamodels.Json.{Value}
use metamodels.Connectors.Breed.{RequestCtx, jobs}
use metamodels.Connectors.Comfyui.Template.{Graph, WorkflowTemplate}
use metamodels.Connectors.Comfyui.Submit
use metamodels.Connectors.Comfyui.Submit.{ComfyConstraint, SubmitBody, prompt_request}
use metamodels.Connectors.Comfyui.Submit.Keeps.{Listed, IsRebuilt, IsKept, handle-keeps}
use metamodels.Connectors.Io.{upload_form}
use metamodels.DataPlane.Proxy.{Flock, Outgoing, outgoing, outgoing_raw}
use metamodels.DataPlane.World.{ResolvedKey, ResolvedPaddock, MeterEventRecord, World}
use metamodels.DataPlane.Breeds.{comfyui_breed, comfyui_routes}
use metamodels.DataPlane.Pipeline.{
  Scope, Deps, refusal, BreedOutcome, build_io, is_direct, run, run_breed,
}
use metamodels.DataPlane.Pipeline.Gates.{scope_of}

-- A request that a submission may send: an image, or a graph rebuilt from a template of the fence.
abbrev pub IsSubmission : ComfyConstraint → Flock → Outgoing → Type 0
IsSubmission fence flock out =
    ((name : String) × (base64 : String) × (out
        ≡ outgoing_raw flock "/upload/image" (upload_form name base64)))
    ⊎ ((tpl : WorkflowTemplate) × (g : Graph) × Listed tpl fence.templates
        × IsRebuilt tpl g
        × (out ≡ outgoing flock (prompt_request g)))

-- A meter record of the caller, for a job at the cost of a template of the fence.
abbrev pub IsJobCost :
    ComfyConstraint → ResolvedKey → ResolvedPaddock → ℕ → MeterEventRecord → Type 0
IsJobCost fence key p now m =
    (tpl : WorkflowTemplate) × Listed tpl fence.templates
    × (m ≡ record {
      org_id = p.org_id;
      key_id = key.key_id;
      paddock_id = p.paddock_id;
      breed_id = p.breed_id;
      dim = jobs;
      value = tpl.cost;
      at = now;
    })

All-snoc :
    {A : Type 0} (P : A → Type 0) (xs : List A) (x : A) → All P xs → P x → All P (xs ++ x ∷ [])
All-snoc P xs x h hx = All-append P xs (x ∷ []) h (hx, tt)

module _ (parse : Value → Option ComfyConstraint) (parse_body : Value → Option SubmitBody)
    (rng : ℕ → ℤ) (deps : Deps ComfyConstraint) (key : ResolvedKey) (p : ResolvedPaddock)
    (ctx : RequestCtx) where
  abbrev pub scope : Scope ComfyConstraint
  scope = scope_of key p (comfyui_breed parse parse_body rng)

  abbrev pub IsFenced : ComfyConstraint → World → Type 0
  IsFenced fence w =
      All (IsSubmission fence p.flock) w.sent × All (IsJobCost fence key p deps.now) w.meters

  build_io-IsKept :
      (fence : ComfyConstraint) → IsKept (build_io deps scope) deps.now fence (IsFenced fence)
  unfolding build_io
  build_io-IsKept fence = record {
    upload = λ name base64 w (s, m).
        (All-snoc (IsSubmission fence p.flock) w.sent _ s (inl (name, base64, refl)), m);
    upstream = λ tpl g w l r (s, m).
        (All-snoc (IsSubmission fence p.flock) w.sent _ s (inr (tpl, g, l, r, refl)), m);
    accept = λ tpl id w l (s, m).
        (s, All-snoc (IsJobCost fence key p deps.now) w.meters _ m (tpl, l, refl));
  }

  run_breed-refused :
      (fence : ComfyConstraint) (w : World)
      → any (is_direct ctx) comfyui_routes ≡ true
      → run_breed deps scope ctx scope.breed.handle fence w ≡ (
        BreedOutcome.refused
            (refusal 403 "direct comfyui routes are not permitted; use the template submit flow"),
        w,
      )
  unfolding run_breed Submit.guard
  run_breed-refused fence w h = rw h refl

  handled-IsFenced :
      (fence : ComfyConstraint) (w : World)
      → any (is_direct ctx) comfyui_routes ≡ false
      → IsFenced fence w
      → IsFenced fence (run_breed deps scope ctx scope.breed.handle fence w).1
  unfolding run_breed
  handled-IsFenced fence w other h = rw other (
      handle-keeps parse_body rng deps.now ctx fence (build_io deps scope) w (IsFenced fence)
        (build_io-IsKept fence) h)

  run_breed-IsFenced :
      (fence : ComfyConstraint) (w : World)
      → IsFenced fence w
      → IsFenced fence (run_breed deps scope ctx scope.breed.handle fence w).1
  run_breed-IsFenced fence w h = elim (Bool-cases (any (is_direct ctx) comfyui_routes)) [
    | inl direct ↦ rw (run_breed-refused fence w direct) h
    | inr other ↦ handled-IsFenced fence w other h
  ]

-- A request to a ComfyUI paddock sends nothing upstream but images and graphs that are rebuilt from a
-- template of the paddock's fence, and meters nothing but jobs of the caller at the cost of a template
-- of the fence.
pub run-IsFenced :
    (parse : Value → Option ComfyConstraint) (parse_body : Value → Option SubmitBody) (rng : ℕ → ℤ)
    (deps : Deps ComfyConstraint) (key : ResolvedKey) (p : ResolvedPaddock) (ctx : RequestCtx)
    (fence : ComfyConstraint) (w : World)
    → parse p.fence.constraint_json ≡ some fence
    → IsFenced parse parse_body rng deps key p ctx fence w
    → IsFenced parse parse_body rng deps key p ctx fence
        (run deps (scope_of key p (comfyui_breed parse parse_body rng)) ctx w).1
unfolding run
run-IsFenced parse parse_body rng deps key p ctx fence w e h =
    rw e (run_breed-IsFenced parse parse_body rng deps key p ctx fence w h)

-- A request to a ComfyUI paddock that targets a route of the ComfyUI server itself is refused with 403,
-- and changes nothing.
pub run-refuses_direct :
    (parse : Value → Option ComfyConstraint) (parse_body : Value → Option SubmitBody) (rng : ℕ → ℤ)
    (deps : Deps ComfyConstraint) (key : ResolvedKey) (p : ResolvedPaddock) (ctx : RequestCtx)
    (fence : ComfyConstraint) (w : World)
    → parse p.fence.constraint_json ≡ some fence
    → any (is_direct ctx) comfyui_routes ≡ true
    → run deps (scope_of key p (comfyui_breed parse parse_body rng)) ctx w ≡ (
      BreedOutcome.refused
          (refusal 403 "direct comfyui routes are not permitted; use the template submit flow"),
      w,
    )
unfolding run
run-refuses_direct parse parse_body rng deps key p ctx fence w e h =
    rw e (run_breed-refused parse parse_body rng deps key p ctx fence w h)
