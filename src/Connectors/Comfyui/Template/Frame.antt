-- ===== src/Connectors/Comfyui/Template/Frame.antt =====
-- A rebuilt graph differs from the template at declared inputs only.
use metamodels.Common.{
  ℕ, ◌+◌, String, ◌≡◌, refl, ◌∙◌, inl, inr, Bool, false, ◌&&◌, ◌||◌, Option, none, some, List, [],
  ◌∷◌, ◌++◌, arith, str_eq, eq_iff, if◌then◌else◌, Option-cases, any, ℤ,
}
use mathlib.Core.Path.{subst}
use metamodels.JsMap.{JsMap, get, set}
use metamodels.JsMap.Laws.{get-set}
use metamodels.Json.{Value, num, str, is_string, is_number}
use metamodels.Connectors.Comfyui.Template.{
  Target, ParamKind, text, seed, number, image, ParamSpec, Node, Graph, WorkflowTemplate,
  ReconstructResult, ok, err, ◌>>=◌, written, write, write_all, write_number, write_text,
  write_image, apply_spec, draws, apply_specs, undeclared, reconstruct_graph,
}

abbrev pub class_of : Option Node → Option String
class_of none = none
class_of (some n) = some n.class_type

abbrev pub input_of : Option Node → String → Option Value
input_of none input = none
input_of (some n) input = get n.inputs input

abbrev pub class_at : Graph → String → Option String
class_at g node = class_of (get g node)

abbrev pub input_at : Graph → String → String → Option Value
input_at g node input = input_of (get g node) input

-- The inputs that a spec may write.
abbrev pub targets_of : ParamKind → List Target
targets_of (text t) = t ∷ []
targets_of (seed ts) = ts
targets_of (number t lo hi) = t ∷ []
targets_of (image t) = t ∷ []

abbrev pub hits : List Target → String → String → Bool
hits ts node input = any (λ t. str_eq t.node node && str_eq t.input input) ts

-- From `g` to `g'` no node comes, goes or changes its class, and no input changes but the targets.
pub record Keeps (ts : List Target) (g g' : Graph) : Type 0 where
  pub classes : (node : String) → class_at g' node ≡ class_at g node
  pub inputs :
      (node input : String)
      → hits ts node input ≡ false
      → input_at g' node input ≡ input_at g node input

pub >>=-eq-ok :
    (m : ReconstructResult) (k : Graph → ReconstructResult) {g' : Graph}
    → (m >>= k) ≡ ok g'
    → (g : Graph) × (m ≡ ok g) × (k g ≡ ok g')
>>=-eq-ok (ok g) k h = (g, refl, h)
>>=-eq-ok (err e) k h = cc

Keeps-refl : (ts : List Target) (g : Graph) → Keeps ts g g
Keeps-refl ts g = record { classes = λ node. refl; inputs = λ node input h. refl }

hits-append :
    (ts us : List Target) (node input : String)
    → hits (ts ++ us) node input ≡ (hits ts node input || hits us node input)
hits-append [] us node input = refl
hits-append (t ∷ ts) us node input = ground (arith, hits-append ts us node input)

Keeps-trans :
    (ts us : List Target) {g h k : Graph} → Keeps ts g h → Keeps us h k → Keeps (ts ++ us) g k
Keeps-trans ts us a b = record {
  classes = λ node. b.classes node ∙ a.classes node;
  inputs = λ node input miss.
      b.inputs node input (ground (arith, hits-append ts us node input))
      ∙ a.inputs node input (ground (arith, hits-append ts us node input));
}

-- What one write does to the graph.
written_lem :
    (g : Graph) (name : String) (t : Target) (v : Value) (o : Option Node) (g' : Graph)
    → get g t.node ≡ o
    → written g name t v o ≡ ok g'
    → (node input : String)
    → (class_at g' node ≡ class_at g node)
      × (input_at g' node input
          ≡ (if str_eq t.node node && str_eq t.input input then some v else input_at g node input))
written_lem g name t v none g' e h node input = cc
written_lem g name t v (some n) g' e h node input =
    let n' : Node = record n { inputs = set n.inputs t.input v } in
    ground (arith, eq_iff t.node node, get-set g t.node node n', get-set n.inputs t.input input v)

pub write_lem :
    (g : Graph) (name : String) (t : Target) (v : Value) (g' : Graph)
    → write g name t v ≡ ok g'
    → (node input : String)
    → (class_at g' node ≡ class_at g node)
      × (input_at g' node input
          ≡ (if str_eq t.node node && str_eq t.input input then some v else input_at g node input))
unfolding write
write_lem g name t v g' h = written_lem g name t v (get g t.node) g' refl h

pub write-Keeps :
    (g : Graph) (name : String) (t : Target) (v : Value) (g' : Graph)
    → write g name t v ≡ ok g'
    → Keeps (t ∷ []) g g'
write-Keeps g name t v g' h = record {
  classes = λ node. (write_lem g name t v g' h node "").0;
  inputs = λ node input miss. ground (arith, write_lem g name t v g' h node input);
}

write_all-Keeps :
    (g : Graph) (name : String) (ts : List Target) (v : Value) (g' : Graph)
    → write_all g name ts v ≡ ok g'
    → Keeps ts g g'
unfolding write_all
write_all-Keeps g name [] v g' h = record { classes = λ node. cc; inputs = λ node input miss. cc }
write_all-Keeps g name (t ∷ ts) v g' h =
    let (mid, first, rest) = >>=-eq-ok (write g name t v) (λ k. write_all k name ts v) h in
    Keeps-trans (t ∷ []) ts (write-Keeps g name t v mid first)
      (write_all-Keeps mid name ts v g' rest)

write_number-Keeps :
    (g : Graph) (name : String) (t : Target) (lo hi n : Option ℤ) (g' : Graph)
    → write_number g name t lo hi n ≡ ok g'
    → Keeps (t ∷ []) g g'
unfolding write_number
write_number-Keeps g name t lo hi none g' h = cc
write_number-Keeps g name t lo hi (some n) g' h = write-Keeps g name t (num n) g' (ground arith)

write_text-Keeps :
    (g : Graph) (name : String) (t : Target) (s : Option String) (g' : Graph)
    → write_text g name t s ≡ ok g'
    → Keeps (t ∷ []) g g'
unfolding write_text
write_text-Keeps g name t none g' h = cc
write_text-Keeps g name t (some s) g' h = write-Keeps g name t (str s) g' h

write_image-Keeps :
    (g : Graph) (name : String) (t : Target) (s : Option String) (g' : Graph)
    → write_image g name t s ≡ ok g'
    → Keeps (t ∷ []) g g'
unfolding write_image
write_image-Keeps g name t none g' h = cc
write_image-Keeps g name t (some s) g' h = write-Keeps g name t (str s) g' h

Keeps-ok : (ts : List Target) {g g' : Graph} → ok g ≡ ok g' → Keeps ts g g'
Keeps-ok ts {g} {g'} h = let same : g ≡ g' = cc h in subst (Keeps ts g) same (Keeps-refl ts g)

pub apply_spec-Keeps :
    (g : Graph) (name : String) (kind : ParamKind) (draw : ℤ) (raw : Option Value)
    (upload : Option String) (g' : Graph)
    → apply_spec g name kind draw raw upload ≡ ok g'
    → Keeps (targets_of kind) g g'
unfolding apply_spec
apply_spec-Keeps g name (seed ts) draw raw upload g' h = write_all-Keeps g name ts (num draw) g' h
apply_spec-Keeps g name (text t) draw none upload g' h = Keeps-ok (t ∷ []) h
apply_spec-Keeps g name (text t) draw (some v) upload g' h =
    write_text-Keeps g name t (is_string v) g' h
apply_spec-Keeps g name (number t lo hi) draw none upload g' h = Keeps-ok (t ∷ []) h
apply_spec-Keeps g name (number t lo hi) draw (some v) upload g' h =
    write_number-Keeps g name t lo hi (is_number v) g' h
apply_spec-Keeps g name (image t) draw none upload g' h = Keeps-ok (t ∷ []) h
apply_spec-Keeps g name (image t) draw (some v) upload g' h = write_image-Keeps g name t upload g' h

abbrev pub all_targets : List ParamSpec → List Target
all_targets [] = []
all_targets (s ∷ specs) = targets_of s.kind ++ all_targets specs

apply_specs-Keeps :
    (rng : ℕ → ℤ) (params : JsMap Value) (uploads : JsMap String) (i : ℕ) (specs : List ParamSpec)
    (g g' : Graph)
    → apply_specs rng params uploads i specs g ≡ ok g'
    → Keeps (all_targets specs) g g'
unfolding apply_specs
apply_specs-Keeps rng params uploads i [] g g' h = Keeps-ok [] h
apply_specs-Keeps rng params uploads i (s ∷ specs) g g' h =
    let (mid, first, rest) =
      >>=-eq-ok (apply_spec g s.name s.kind (rng i) (get params s.name) (get uploads s.name))
        (apply_specs rng params uploads (i + draws s.kind) specs) h in
    Keeps-trans (targets_of s.kind) (all_targets specs)
      (apply_spec-Keeps g s.name s.kind (rng i) (get params s.name) (get uploads s.name) mid first)
      (apply_specs-Keeps rng params uploads (i + draws s.kind) specs mid g' rest)

-- Whatever a caller supplies, a graph that is rebuilt has the template's nodes with their classes, and
-- every input that no declared spec targets is the template's.
pub reconstruct_graph-Keeps :
    (tpl : WorkflowTemplate) (params : JsMap Value) (uploads : JsMap String) (rng : ℕ → ℤ)
    (g : Graph)
    → reconstruct_graph tpl params uploads rng ≡ ok g
    → Keeps (all_targets tpl.params) tpl.graph g
unfolding reconstruct_graph
reconstruct_graph-Keeps tpl params uploads rng g h =
    elim (Option-cases (undeclared tpl.params params)) [
      | inl declared ↦
          apply_specs-Keeps rng params uploads 0 tpl.params tpl.graph g
            (rw (declared, reconstruct_graph) at h)
      | inr (key, e) ↦ cc (rw (e, reconstruct_graph) at h)
    ]
