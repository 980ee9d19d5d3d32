-- ===== src/Examples/Chat.antt =====
-- The Ollama breed on concrete requests.
use metamodels.Common.{◌≡◌, refl, ◌↔◌, true, length, starts_with, before, pos}
use metamodels.Json.{Value, bool, num, str, obj, end, field, prop, get_field}
use metamodels.Connectors.Breed.{RewrittenRequest, pass}
use metamodels.Connectors.Ollama
use metamodels.Connectors.Ollama.{
  RouteGroup, mutate, group_of, route_group, model_permitted, ollama_model_allowed, include_usage,
  meter, token_counts,
}
use metamodels.Connectors.Ollama.Guard.{Permits, sent_on, guard-pass_iff}
use metamodels.Examples.{chat_fence, chat_request, answer_of}

chat-group : route_group "/v1/chat/completions?stream" ≡ RouteGroup.chat
unfolding route_group group_of before starts_with
chat-group = refl

pull-group : route_group "/api/pull" ≡ mutate
unfolding route_group group_of before starts_with
pull-group = refl

usage_added : Value
usage_added = obj (
    field "model" (str "llama3") (
      field "stream" (bool true)
        (field "stream_options" (obj (field "include_usage" (bool true) end)) end)))

abbrev sent : RewrittenRequest
sent = sent_on chat_request (route_group chat_request.path)

guard-pass_iff_example : (Ollama.guard chat_request chat_fence ≡ pass sent) ↔ (
    Permits chat_request chat_fence (route_group chat_request.path)
    × (sent ≡ sent_on chat_request (route_group chat_request.path)))
guard-pass_iff_example = guard-pass_iff chat_request chat_fence sent

guard-passes : Ollama.guard chat_request chat_fence ≡ pass sent
unfolding Ollama.guard route_group group_of before starts_with model_permitted ollama_model_allowed
    prop get_field
guard-passes = refl

abbrev counts : Value
counts = obj (field "prompt_eval_count" (num (pos 12)) (field "eval_count" (num (pos 0)) end))

meter-counts : length (meter 7 (answer_of counts)) ≡ 1
unfolding meter token_counts prop get_field
meter-counts = refl
