-- ===== src/DataPlane/Breeds.antt =====
-- The two breeds as the pipeline sees them: packages/connectors/src/ollama/breed.ts and
-- packages/connectors/src/comfyui/breed.ts. The schema checks are parameters.
use metamodels.Common.{ℕ, String, Bool, true, false, Option, none, some, List, [], ◌∷◌, ℤ}
use metamodels.Json.{Value}
use metamodels.Connectors.Breed.{RouteSpec, RouteClass, infer, read, mutate}
use metamodels.Connectors.Ollama
use metamodels.Connectors.Ollama.{OllamaConstraint}
use metamodels.Connectors.Comfyui.Submit
use metamodels.Connectors.Comfyui.Submit.{ComfyConstraint, SubmitBody}
use metamodels.DataPlane.World.{Breed}

abbrev route : String → String → RouteClass → Bool → RouteSpec
route method path class exposed = record {
  method = method;
  path = path;
  class = class;
  expose_by_default = exposed;
}

abbrev pub ollama_routes : List RouteSpec
ollama_routes =
    route "POST" "/api/chat" infer true
    ∷ route "POST" "/api/generate" infer true
    ∷ route "POST" "/api/embed" infer true
    ∷ route "GET" "/api/tags" read true
    ∷ route "POST" "/api/pull" mutate false
    ∷ route "DELETE" "/api/delete" mutate false
    ∷ []

abbrev pub comfyui_routes : List RouteSpec
comfyui_routes =
    route "POST" "/prompt" infer false
    ∷ route "POST" "/upload/image" mutate false
    ∷ route "GET" "/history" read false
    ∷ route "GET" "/view" read false
    ∷ []

abbrev pub ollama_breed : (Value → Option OllamaConstraint) → Breed OllamaConstraint
ollama_breed parse = record {
  id = "ollama";
  routes = ollama_routes;
  parse = parse;
  guard = Ollama.guard;
  meter = λ now ctx upstream. Ollama.meter now upstream;
  handle = none;
}

abbrev pub comfyui_breed :
    (Value → Option ComfyConstraint) → (Value → Option SubmitBody) → (ℕ → ℤ) → Breed ComfyConstraint
comfyui_breed parse parse_body rng = record {
  id = "comfyui";
  routes = comfyui_routes;
  parse = parse;
  guard = Submit.guard;
  meter = λ now ctx upstream. [];
  handle = some (λ now ctx fence io w. Submit.handle parse_body rng now ctx fence io w);
}
