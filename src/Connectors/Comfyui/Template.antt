-- ===== src/Connectors/Comfyui/Template.antt =====
-- packages/connectors/src/comfyui/template.ts: the graph is rebuilt from the operator's template and
-- the caller's parameters.
pub mod Frame
pub mod Accepts
use metamodels.Common.{
  append, ℕ, suc, ◌+◌, String, Bool, false, Option, none, some, List, [], ◌∷◌, str_eq,
  if◌then◌else◌, any, decimal, lt_int, ℤ, pos, negsuc,
}
use metamodels.JsMap.{JsMap, get, set}
use metamodels.Json.{Value, num, str, is_string, is_number}

pub record Target : Type 0 where
  pub node : String
  pub input : String

pub data ParamKind : Type 0 where
  text : Target → ParamKind
  seed : List Target → ParamKind
  number : Target → Option ℤ → Option ℤ → ParamKind
  image : Target → ParamKind

pub record ParamSpec : Type 0 where
  pub name : String
  pub kind : ParamKind

-- A node of a workflow graph.
pub record Node : Type 0 where
  pub class_type : String
  pub inputs : JsMap Value

abbrev pub Graph : Type 0
Graph = JsMap Node

pub record WorkflowTemplate : Type 0 where
  pub id : String
  pub graph : Graph
  pub params : List ParamSpec
  pub cost : ℤ

pub data ReconstructResult : Type 0 where
  ok : Graph → ReconstructResult
  err : String → ReconstructResult

infixl 5 ◌>>=◌
abbrev pub ◌>>=◌ : ReconstructResult → (Graph → ReconstructResult) → ReconstructResult
ok g >>= k = k g
err e >>= k = err e

-- `param '<name>' <rest>`
abbrev about : String → String → String
about name rest = append "param '" (append name (append "' " rest))

decimal_int : ℤ → String
decimal_int (pos n) = decimal n
decimal_int (negsuc n) = append "-" (decimal (suc n))

abbrev written : Graph → String → Target → Value → Option Node → ReconstructResult
written g name t v none = err (about name (append "targets missing node: " t.node))
written g name t v (some n) = ok (set g t.node (record n { inputs = set n.inputs t.input v }))

-- `inputsFor(…).inputs[t.input] = v`
unfoldable pub write : Graph → String → Target → Value → ReconstructResult
write g name t v = written g name t v (get g t.node)

write_all : Graph → String → List Target → Value → ReconstructResult
write_all g name [] v = ok g
write_all g name (t ∷ ts) v = do g' ← write g name t v; write_all g' name ts v

-- The bounds are tested as `min !== undefined && raw < min`.
abbrev below : ℤ → Option ℤ → Bool
below n none = false
below n (some lo) = lt_int n lo

abbrev above : ℤ → Option ℤ → Bool
above n none = false
above n (some hi) = lt_int hi n

bound_text : Option ℤ → String
unfolding decimal_int
bound_text none = "undefined"
bound_text (some n) = decimal_int n

write_number : Graph → String → Target → Option ℤ → Option ℤ → Option ℤ → ReconstructResult
unfolding bound_text
write_number g name t lo hi none = err (about name "must be a number")
write_number g name t lo hi (some n) =
    if below n lo
    then err (about name (append "below min " (bound_text lo)))
    else if above n hi
    then err (about name (append "above max " (bound_text hi)))
    else write g name t (num n)

write_text : Graph → String → Target → Option String → ReconstructResult
write_text g name t none = err (about name "must be a string")
write_text g name t (some s) = write g name t (str s)

write_image : Graph → String → Target → Option String → ReconstructResult
write_image g name t none = err (about name "requires an uploaded image")
write_image g name t (some file) = write g name t (str file)

-- One round of the loop. `raw` is the supplied value, `none` where the caller gave none, and `draw`
-- the number that a seed is given.
pub apply_spec : Graph → String → ParamKind → ℤ → Option Value → Option String → ReconstructResult
unfolding write write_all write_number write_text write_image
apply_spec g name (seed targets) draw raw upload = write_all g name targets (num draw)
apply_spec g name (text t) draw none upload = ok g
apply_spec g name (text t) draw (some v) upload = write_text g name t (is_string v)
apply_spec g name (number t lo hi) draw none upload = ok g
apply_spec g name (number t lo hi) draw (some v) upload = write_number g name t lo hi (is_number v)
apply_spec g name (image t) draw none upload = ok g
apply_spec g name (image t) draw (some v) upload = write_image g name t upload

-- A seed takes the next number of the generator.
abbrev draws : ParamKind → ℕ
draws (seed _) = 1
draws (text _) = 0
draws (number _ _ _) = 0
draws (image _) = 0

-- `rng i` is `Math.floor(rng() * 1e12)` for the `i`-th call of the generator.
module _ (rng : ℕ → ℤ) (params : JsMap Value) (uploads : JsMap String) where
  apply_specs : ℕ → List ParamSpec → Graph → ReconstructResult
  unfolding apply_spec
  apply_specs i [] g = ok g
  apply_specs i (s ∷ specs) g = do
    g' ← apply_spec g s.name s.kind (rng i) (get params s.name) (get uploads s.name)
    apply_specs (i + draws s.kind) specs g'

abbrev pub declares : List ParamSpec → String → Bool
declares specs key = any (λ s. str_eq s.name key) specs

-- The first key of the parameters that no spec declares.
abbrev pub undeclared : List ParamSpec → JsMap Value → Option String
undeclared specs [] = none
undeclared specs ((k, v) ∷ params) = if declares specs k then undeclared specs params else some k

unfoldable pub reconstruct_graph :
    WorkflowTemplate → JsMap Value → JsMap String → (ℕ → ℤ) → ReconstructResult
unfolding apply_specs
reconstruct_graph tpl params uploads rng = elim (undeclared tpl.params params) [
  | some key ↦ err (append "unknown param: " key)
  | none ↦ apply_specs rng params uploads 0 tpl.params tpl.graph
]
