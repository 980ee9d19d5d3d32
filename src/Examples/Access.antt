-- ===== src/Examples/Access.antt =====
-- The proxy's routes on concrete requests.
use metamodels.Common.{
  ◌≤◌, String, ◌≡◌, refl, ◌↔◌, ◌⊎◌, inl, inr, true, false, Option, none, some, [], ◌∷◌, str_eq,
  if◌then◌else◌,
}
use metamodels.JsMap.{get}
use metamodels.Json.{Value, undefined, str}
use metamodels.Connectors.Ollama.{OllamaConstraint}
use metamodels.DataPlane.RateLimit.{check, recent_hits}
use metamodels.DataPlane.Breeds.{ollama_breed}
use metamodels.Connectors.Breed.{RequestCtx}
use metamodels.DataPlane.Pipeline.{BreedOutcome, run, limits, quota, quota_refusal}
use metamodels.DataPlane.Pipeline.Gates.{scope_of}
use metamodels.DataPlane.App.{
  HttpRequest, AppDeps, extract_key, no_key_matches, unauthorized_key, read_body, proxy_request,
  result_request,
}
use metamodels.DataPlane.App.Limit.{read_body_iff}
use metamodels.DataPlane.App.Access.{
  IsContext, IsAnswered, IsPollGated, result_request-IsPollGated, IsQuiet, IsGated,
  proxy_request-IsGated, proxy_request-dead, proxy_request-runs,
}
use metamodels.Examples.{key, chat_paddock, chat_fence, deps_of, idle}

abbrev parse_chat : Value → Option OllamaConstraint
parse_chat v = some chat_fence

-- The store knows one key.
abbrev app : AppDeps OllamaConstraint
app = record {
  pipeline = deps_of chat_paddock (ollama_breed parse_chat) undefined;
  resolve_key_by_hash = λ h. if str_eq h "mm_live_1" then some key else none;
  hash_api_key = λ k. k;
  max_request_body_bytes = 100;
}

abbrev post : String → HttpRequest
post authorization = record {
  method = "POST";
  path = "/p/chat/v1/chat/completions";
  slug = "chat";
  authorization = some authorization;
  x_api_key = none;
  content_type = some "text/plain";
  declared_length = some 12;
  transfer_encoding = false;
  has_body = true;
  chunks = 7 ∷ 5 ∷ [];
  text = "hello, world";
  json = none;
}

extract_key-bearer : extract_key (some "bEARER  mm_live_1 ") (some "other") ≡ some "mm_live_1"
unfolding extract_key
extract_key-bearer = refl

read_body_iff_example : ((body : Value) × (read_body 100 (post "") ≡ some body)) ↔ (12 ≤ 100)
read_body_iff_example = read_body_iff 100 (post "") refl refl

proxy_request-IsGated_example :
    IsQuiet idle (proxy_request app (post "Bearer mm_live_1") idle).1
    ⊎ IsGated app (post "Bearer mm_live_1") idle
proxy_request-IsGated_example = proxy_request-IsGated app (post "Bearer mm_live_1") idle

proxy_request-dead_example :
    proxy_request app (post "Bearer mm_live_2") idle ≡ (unauthorized_key no_key_matches, idle)
unfolding extract_key
proxy_request-dead_example =
    proxy_request-dead app (post "Bearer mm_live_2") idle "mm_live_2" refl refl (inl refl)

gated : IsGated app (post "Bearer mm_live_1") idle
unfolding extract_key limits check quota quota_refusal recent_hits get
gated = record {
  key = key;
  p = chat_paddock;
  b = ollama_breed parse_chat;
  found = refl;
  fresh = refl;
  entitled = record {
    found = refl;
    active = refl;
    in_scope = inr (inl refl);
    opens = refl;
    breed = refl;
  };
  room = refl;
}

proxy_request-runs_example :
    (ctx : RequestCtx) × (outcome : BreedOutcome) × IsContext
      (post "Bearer mm_live_1")
      (str "hello, world")
      ctx
    × (run app.pipeline
          (scope_of key chat_paddock (ollama_breed parse_chat))
          ctx
          (limits app.pipeline (scope_of key chat_paddock (ollama_breed parse_chat)) idle).1
        ≡ (outcome, (proxy_request app (post "Bearer mm_live_1") idle).1))
    × IsAnswered outcome (proxy_request app (post "Bearer mm_live_1") idle).0
unfolding read_body gated
proxy_request-runs_example =
    proxy_request-runs app (post "Bearer mm_live_1") idle (str "hello, world") gated refl refl

abbrev poll : HttpRequest
poll = record (post "Bearer mm_live_2") {
  method = "GET";
  path = "/p/chat/result/p1";
  has_body = false;
}

result_request-IsPollGated_example :
    ((result_request app poll "p1" idle).1 ≡ idle) ⊎ IsPollGated app poll
result_request-IsPollGated_example = result_request-IsPollGated app poll "p1" idle
