-- ===== src/DataPlane/Proxy.antt =====
-- apps/data-plane/src/proxy/proxy.ts and packages/connectors/src/upstream-auth.ts: the request that goes
-- to the upstream server.
pub mod Credential
use metamodels.Common.{
  append, String, Bool, true, false, not, ◌&&◌, Option, none, some, [], ◌∷◌, str_eq, if◌then◌else◌,
  or_else, after_prefix_ci, is_empty, after_spaces, drop_last_slash,
}
use metamodels.JsMap.{JsMap, get, set}
use metamodels.Json.{Value, undefined, str}
use metamodels.Connectors.Breed.{RewrittenRequest}

-- The opened credential is plain text.
pub record Flock : Type 0 where
  pub base_url : String
  pub upstream_auth : Option String

-- What `fetch` is given. An object in `body` is sent as its JSON text.
pub record Outgoing : Type 0 where
  pub url : String
  pub method : String
  pub headers : JsMap String
  pub body : Value

abbrev without_bearer : String → Option String → String
without_bearer token none = token
without_bearer token (some rest) = or_else (after_spaces rest) token

-- `token.replace(/^bearer\s+/i, '')`
unfoldable pub bare_token : String → String
unfolding after_prefix_ci after_spaces
bare_token token = without_bearer token (after_prefix_ci "bearer" token)

abbrev token_headers : String → JsMap String
token_headers token = if is_empty token then [] else ("authorization", append "Bearer " token) ∷ []

abbrev credential_headers : Option String → JsMap String
credential_headers none = []
credential_headers (some token) = token_headers (bare_token token)

unfoldable pub upstream_auth_headers : Flock → JsMap String
upstream_auth_headers flock = credential_headers flock.upstream_auth

-- `{ ...a, ...b }`
unfoldable pub spread_headers : JsMap String → JsMap String → JsMap String
unfolding set
spread_headers a [] = a
spread_headers a ((k, v) ∷ b) = spread_headers (set a k v) b

abbrev sends_body : RewrittenRequest → Bool
sends_body req =
    not (str_eq req.method "GET")
    && not (str_eq req.method "HEAD")
    && elim req.body [ undefined ↦ false | _ ↦ true ]

abbrev is_text : Value → Bool
is_text (str s) = true
is_text undefined = false
is_text _ = false

-- An object's JSON text gets its content type, where there is none.
abbrev typed : JsMap String → JsMap String
typed headers =
    if is_empty (or_else (get headers "content-type") "")
    then set headers "content-type" "application/json"
    else headers

-- The arguments of the call of `fetch` in `proxyToUpstream`.
unfoldable pub outgoing : Flock → RewrittenRequest → Outgoing
unfolding upstream_auth_headers bare_token spread_headers drop_last_slash get
outgoing flock req =
    let headers = spread_headers req.headers (upstream_auth_headers flock) in
    record {
      url = append (drop_last_slash flock.base_url) req.path;
      method = req.method;
      headers = if sends_body req && not (is_text req.body) then typed headers else headers;
      body = if sends_body req then req.body else undefined;
    }

-- The arguments of the call of `fetch` in `rawToUpstream`, for a caller whose `init` is a POST of `body` that
-- sets no headers.
unfoldable pub outgoing_raw : Flock → String → Value → Outgoing
unfolding upstream_auth_headers bare_token drop_last_slash
outgoing_raw flock path body = record {
  url = append (drop_last_slash flock.base_url) path;
  method = "POST";
  headers = upstream_auth_headers flock;
  body = body;
}
