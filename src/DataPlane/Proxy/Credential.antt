-- ===== src/DataPlane/Proxy/Credential.antt =====
-- Which credential goes upstream.
use metamodels.Common.{
  append, String, ◌≡◌, ◌∙◌, inl, inr, not, ◌&&◌, Option, none, some, Bool-cases, or_else, is_empty,
}
use metamodels.JsMap.{JsMap, get}
use metamodels.JsMap.Laws.{get-set}
use metamodels.Connectors.Breed.{RewrittenRequest}
use metamodels.DataPlane.Proxy.{
  Flock, upstream_auth_headers, credential_headers, bare_token, spread_headers, outgoing, typed,
  sends_body, is_text,
}

-- The header that the flock's credential gives, if it has one.
abbrev pub own_credential : Flock → Option String
own_credential flock = get (upstream_auth_headers flock) "authorization"

spread-token :
    (headers : JsMap String) (o : Option String)
    → get headers "authorization" ≡ none
    → get (spread_headers headers (credential_headers o)) "authorization"
      ≡ get (credential_headers o) "authorization"
unfolding spread_headers get
spread-token headers none h = h
spread-token headers (some token) h = elim (Bool-cases (is_empty (bare_token token))) [
  | inl blank ↦ rw blank h
  | inr given ↦
      rw (
        given,
        get-set headers "authorization" "authorization" (append "Bearer " (bare_token token)),
      )
]

typed-auth :
    (headers : JsMap String) → get (typed headers) "authorization" ≡ get headers "authorization"
typed-auth headers = elim (Bool-cases (is_empty (or_else (get headers "content-type") ""))) [
  | inl blank ↦ rw (blank, get-set headers "content-type" "authorization" "application/json")
  | inr given ↦ rw given
]

-- A request whose own headers hold no `authorization` goes upstream with the flock's credential, if the
-- flock has one, and with no other.
pub outgoing-credential :
    (flock : Flock) (req : RewrittenRequest)
    → get req.headers "authorization" ≡ none
    → get (outgoing flock req).headers "authorization" ≡ own_credential flock
unfolding outgoing
outgoing-credential flock req h =
    let plain = spread-token req.headers flock.upstream_auth h in
    elim (Bool-cases (sends_body req && not (is_text req.body))) [
      | inl object ↦
          rw object (typed-auth (spread_headers req.headers (upstream_auth_headers flock)) ∙ plain)
      | inr other ↦ rw other plain
    ]
