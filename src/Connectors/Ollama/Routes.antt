-- ===== src/Connectors/Ollama/Routes.antt =====
-- Which routes there are, whatever the query string.
use Prim.Native.Char.{Char, code}
use text.Mathlib.TextLemmas.{nil-append, cons-append}
use metamodels.Common.{append, ℕ, String, ◌≡◌, refl, sym, ap, ◌∙◌, ◌≢◌, arith, before}
use metamodels.Connectors.Ollama.{group_of, route_group}

-- The character does not occur in the text.
abbrev pub Lacks : ℕ → String → Type 0
Lacks sep String.[] = Unit
Lacks sep (String.◌∷◌ c s) = (code c ≢ sep) × Lacks sep s

before-append :
    (c : Char) (p q : String) → Lacks (code c) p → before (code c) (append p (String.◌∷◌ c q)) ≡ p
unfolding before
before-append c String.[] q h = rw nil-append (ground arith)
before-append c (String.◌∷◌ d p) q (ne, h) = rw cons-append (ground (arith, before-append c p q h))

before_self : (sep : ℕ) (p : String) → Lacks sep p → before sep p ≡ p
unfolding before
before_self sep String.[] h = refl
before_self sep (String.◌∷◌ d p) (ne, h) = ground (arith, before_self sep p h)

-- A query string does not change the group of a route.
pub route_group-query :
    (path query : String)
    → Lacks b'?' path
    → route_group (append path (String.◌∷◌ "?" query)) ≡ route_group path
unfolding route_group
route_group-query path query h =
    ap group_of (before-append "?" path query h ∙ sym (before_self b'?' path h))
