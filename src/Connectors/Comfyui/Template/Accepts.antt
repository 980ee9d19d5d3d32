-- ===== src/Connectors/Comfyui/Template/Accepts.antt =====
-- Exactly which parameters are accepted.
use metamodels.Common.{
  ℕ, ◌+◌, String, ◌≡◌, refl, sym, ap, ◌∙◌, ◌↔◌, inl, inr, true, false, Option, none, some, List, [],
  ◌∷◌, arith, eq_iff, eq_refl, Option-cases, is_some, All, ℤ,
}
use metamodels.JsMap.{JsMap, get, set, has}
use metamodels.Json.{Value, undefined, num, str, is_string, is_number}
use metamodels.Connectors.Comfyui.Template.{
  Target, ParamKind, text, seed, number, image, ParamSpec, Node, Graph, WorkflowTemplate,
  ReconstructResult, ok, written, write, write_all, below, above, write_number, write_text,
  write_image, apply_spec, draws, apply_specs, declares, undeclared, reconstruct_graph,
}
use metamodels.Connectors.Comfyui.Template.Frame.{
  class_of, Keeps, >>=-eq-ok, targets_of, apply_spec-Keeps, write-Keeps,
}

-- The graph has the target's node.
abbrev pub Present : Graph → Target → Type 0
Present g t = has g t.node ≡ true

-- What a spec asks: its nodes exist, and a value that is supplied is of its type and in its bounds.
abbrev pub Accepts : Graph → ParamKind → Option Value → Option String → Type 0
Accepts g (seed ts) raw upload = All (Present g) ts
Accepts g (text t) none upload = Unit
Accepts g (text t) (some v) upload = ((s : String) × (v ≡ str s)) × Present g t
Accepts g (number t lo hi) none upload = Unit
Accepts g (number t lo hi) (some v) upload =
    ((n : ℤ) × (v ≡ num n) × (below n lo ≡ false) × (above n hi ≡ false)) × Present g t
Accepts g (image t) none upload = Unit
Accepts g (image t) (some v) upload = ((file : String) × (upload ≡ some file)) × Present g t

-- The same nodes.
abbrev SameNodes : Graph → Graph → Type 0
SameNodes g g' = (node : String) → has g' node ≡ has g node

has-class : (o p : Option Node) → class_of o ≡ class_of p → is_some o ≡ is_some p
has-class none none h = refl
has-class none (some n) h = cc
has-class (some n) none h = cc
has-class (some n) (some m) h = refl

Keeps-SameNodes : (ts : List Target) (g g' : Graph) → Keeps ts g g' → SameNodes g g'
Keeps-SameNodes ts g g' k node = has-class (get g' node) (get g node) (k.classes node)

Present-same :
    (g g' : Graph) (ts : List Target) → SameNodes g g' → All (Present g) ts → All (Present g') ts
Present-same g g' [] same h = tt
Present-same g g' (t ∷ ts) same (p, h) = (same t.node ∙ p, Present-same g g' ts same h)

Accepts-same :
    (g g' : Graph) (kind : ParamKind) (raw : Option Value) (upload : Option String)
    → SameNodes g g'
    → Accepts g kind raw upload
    → Accepts g' kind raw upload
Accepts-same g g' (seed ts) raw upload same a = Present-same g g' ts same a
Accepts-same g g' (text t) none upload same a = tt
Accepts-same g g' (text t) (some v) upload same (a, p) = (a, same t.node ∙ p)
Accepts-same g g' (number t lo hi) none upload same a = tt
Accepts-same g g' (number t lo hi) (some v) upload same (a, p) = (a, same t.node ∙ p)
Accepts-same g g' (image t) none upload same a = tt
Accepts-same g g' (image t) (some v) upload same (a, p) = (a, same t.node ∙ p)

abbrev Succeeds : ReconstructResult → Type 0
Succeeds r = (g : Graph) × (r ≡ ok g)

written_iff :
    (g : Graph) (name : String) (t : Target) (v : Value) (o : Option Node)
    → Succeeds (written g name t v o) ↔ (is_some o ≡ true)
written_iff g name t v none = (λ (g', h). cc, λ h. cc)
written_iff g name t v (some n) =
    (λ h. refl, λ h. (set g t.node (record n { inputs = set n.inputs t.input v }), refl))

write_iff :
    (g : Graph) (name : String) (t : Target) (v : Value) → Succeeds (write g name t v) ↔ Present g t
unfolding write
write_iff g name t v = written_iff g name t v (get g t.node)

write_all_iff :
    (g : Graph) (name : String) (ts : List Target) (v : Value)
    → Succeeds (write_all g name ts v) ↔ All (Present g) ts
unfolding write_all
write_all_iff g name [] v = (λ h. tt, λ h. (g, refl))
write_all_iff g name (t ∷ ts) v = (
  λ (g', h).
      let (mid, first, rest) = >>=-eq-ok (write g name t v) (λ k. write_all k name ts v) h in
      let same = Keeps-SameNodes (t ∷ []) g mid (write-Keeps g name t v mid first) in
      (
        (write_iff g name t v).0 (mid, first),
        Present-same mid g ts (λ node. sym (same node))
            ((write_all_iff mid name ts v).0 (g', rest)),
      ),
  λ (p, ps).
      let (mid, first) = (write_iff g name t v).1 p in
      let same = Keeps-SameNodes (t ∷ []) g mid (write-Keeps g name t v mid first) in
      rw first ((write_all_iff mid name ts v).1 (Present-same g mid ts same ps)),
)

is_string-eq : (v : Value) (s : String) → is_string v ≡ some s → v ≡ str s
is_string-eq (str s') s h = cc
is_string-eq undefined s h = cc
is_string-eq _ s h = cc

is_number-eq : (v : Value) (n : ℤ) → is_number v ≡ some n → v ≡ num n
is_number-eq (num n') n h = cc
is_number-eq undefined n h = cc
is_number-eq _ n h = cc

-- A supplied value of the type that is wanted, and the node of the target.
write_text_iff :
    (g : Graph) (name : String) (t : Target) (o : Option String)
    → Succeeds (write_text g name t o) ↔ (((s : String) × (o ≡ some s)) × Present g t)
unfolding write_text
write_text_iff g name t none = (λ (g', h). cc, λ ((s, e), p). cc)
write_text_iff g name t (some s) =
    (λ h. ((s, refl), (write_iff g name t (str s)).0 h), λ (_, p). (write_iff g name t (str s)).1 p)

write_image_iff :
    (g : Graph) (name : String) (t : Target) (o : Option String)
    → Succeeds (write_image g name t o) ↔ (((s : String) × (o ≡ some s)) × Present g t)
unfolding write_image
write_image_iff g name t none = (λ (g', h). cc, λ ((s, e), p). cc)
write_image_iff g name t (some s) =
    (λ h. ((s, refl), (write_iff g name t (str s)).0 h), λ (_, p). (write_iff g name t (str s)).1 p)

InRange : Option ℤ → Option ℤ → ℤ → Type 0
InRange lo hi n = (below n lo ≡ false) × (above n hi ≡ false)

write_number_sound :
    (g : Graph) (name : String) (t : Target) (lo hi : Option ℤ) (n : ℤ)
    → Succeeds (write_number g name t lo hi (some n))
    → InRange lo hi n × Present g t
unfolding write_number InRange
write_number_sound g name t lo hi n (g', h) =
    (ground arith, (write_iff g name t (num n)).0 (g', ground arith))

write_number_complete :
    (g : Graph) (name : String) (t : Target) (lo hi : Option ℤ) (n : ℤ)
    → InRange lo hi n
    → Present g t
    → Succeeds (write_number g name t lo hi (some n))
unfolding write_number InRange
write_number_complete g name t lo hi n (l, u) p = rw (l, u) ((write_iff g name t (num n)).1 p)

apply_spec_sound :
    (g : Graph) (name : String) (kind : ParamKind) (draw : ℤ) (raw : Option Value)
    (upload : Option String)
    → Succeeds (apply_spec g name kind draw raw upload)
    → Accepts g kind raw upload
unfolding apply_spec InRange
apply_spec_sound g name (seed ts) draw raw upload h = (write_all_iff g name ts (num draw)).0 h
apply_spec_sound g name (text t) draw none upload h = tt
apply_spec_sound g name (text t) draw (some v) upload h =
    let ((s, e), p) = (write_text_iff g name t (is_string v)).0 h in ((s, is_string-eq v s e), p)
apply_spec_sound g name (number t lo hi) draw none upload h = tt
apply_spec_sound g name (number t lo hi) draw (some v) upload h =
    elim (Option-cases (is_number v)) [
      | inl missing ↦ cc (rw (missing, write_number) at h.1)
      | inr (n, e) ↦
          let ((l, u), p) = write_number_sound g name t lo hi n (rw e at h) in
          ((n, is_number-eq v n e, l, u), p)
    ]
apply_spec_sound g name (image t) draw none upload h = tt
apply_spec_sound g name (image t) draw (some v) upload h = (write_image_iff g name t upload).0 h

apply_spec_complete :
    (g : Graph) (name : String) (kind : ParamKind) (draw : ℤ) (raw : Option Value)
    (upload : Option String)
    → Accepts g kind raw upload
    → Succeeds (apply_spec g name kind draw raw upload)
unfolding apply_spec InRange
apply_spec_complete g name (seed ts) draw raw upload a = (write_all_iff g name ts (num draw)).1 a
apply_spec_complete g name (text t) draw none upload a = (g, refl)
apply_spec_complete g name (text t) draw (some v) upload ((s, e), p) =
    (write_text_iff g name t (is_string v)).1 ((s, ap is_string e), p)
apply_spec_complete g name (number t lo hi) draw none upload a = (g, refl)
apply_spec_complete g name (number t lo hi) draw (some v) upload ((n, e, l, u), p) =
    rw e (write_number_complete g name t lo hi n (l, u) p)
apply_spec_complete g name (image t) draw none upload a = (g, refl)
apply_spec_complete g name (image t) draw (some v) upload a = (write_image_iff g name t upload).1 a

module _ (rng : ℕ → ℤ) (params : JsMap Value) (uploads : JsMap String) where
  abbrev pub AcceptsAll : Graph → List ParamSpec → Type 0
  AcceptsAll g specs = All (λ s. Accepts g s.kind (get params s.name) (get uploads s.name)) specs

  AcceptsAll-same :
      (g g' : Graph) (specs : List ParamSpec)
      → SameNodes g g'
      → AcceptsAll g specs
      → AcceptsAll g' specs
  AcceptsAll-same g g' [] same a = tt
  AcceptsAll-same g g' (s ∷ specs) same (a, rest) = (
    Accepts-same g g' s.kind (get params s.name) (get uploads s.name) same a,
    AcceptsAll-same g g' specs same rest,
  )

  apply_specs_iff :
      (i : ℕ) (specs : List ParamSpec) (g : Graph)
      → Succeeds (apply_specs rng params uploads i specs g) ↔ AcceptsAll g specs
  unfolding apply_specs
  apply_specs_iff i [] g = (λ h. tt, λ a. (g, refl))
  apply_specs_iff i (s ∷ specs) g =
      let raw = get params s.name in
      let upload = get uploads s.name in
      let j = i + draws s.kind in
      (
        λ (g', h).
            let (mid, first, rest) =
              >>=-eq-ok (apply_spec g s.name s.kind (rng i) raw upload)
                (apply_specs rng params uploads j specs) h in
            let same =
              Keeps-SameNodes (targets_of s.kind) g mid
                (apply_spec-Keeps g s.name s.kind (rng i) raw upload mid first) in
            (
              apply_spec_sound g s.name s.kind (rng i) raw upload (mid, first),
              AcceptsAll-same mid g specs (λ node. sym (same node))
                  ((apply_specs_iff j specs mid).0 (g', rest)),
            ),
        λ (a, as').
            let (mid, first) = apply_spec_complete g s.name s.kind (rng i) raw upload a in
            let same =
              Keeps-SameNodes (targets_of s.kind) g mid
                (apply_spec-Keeps g s.name s.kind (rng i) raw upload mid first) in
            rw first ((apply_specs_iff j specs mid).1 (AcceptsAll-same g mid specs same as')),
      )

undeclared_sound :
    (specs : List ParamSpec) (params : JsMap Value)
    → undeclared specs params ≡ none
    → (key : String) → has params key ≡ true
    → declares specs key ≡ true
unfolding get
undeclared_sound specs [] h key k = cc
undeclared_sound specs ((j, v) ∷ params) h key k =
    ground (arith, eq_iff j key, undeclared_sound specs params (ground arith) key)

undeclared_complete :
    (specs : List ParamSpec) (params : JsMap Value)
    → ((key : String) → has params key ≡ true → declares specs key ≡ true)
    → undeclared specs params ≡ none
unfolding get
undeclared_complete specs [] h = refl
undeclared_complete specs ((j, v) ∷ params) h =
    rw (h j (rw (eq_refl j))) (undeclared_complete specs params (λ key k. h key (ground arith)))

-- A graph is rebuilt exactly when every supplied key is the name of a declared spec and every spec is
-- satisfied: the nodes that it writes exist, and a value supplied for it is a text, a number in its
-- bounds, or an image with an uploaded file.
pub reconstruct_graph_iff :
    (tpl : WorkflowTemplate) (params : JsMap Value) (uploads : JsMap String) (rng : ℕ → ℤ)
    → ((g : Graph) × (reconstruct_graph tpl params uploads rng ≡ ok g)) ↔ (
        ((key : String) → has params key ≡ true → declares tpl.params key ≡ true)
        × AcceptsAll rng params uploads tpl.graph tpl.params)
unfolding reconstruct_graph
reconstruct_graph_iff tpl params uploads rng = elim (Option-cases (undeclared tpl.params params)) [
  | inl declared ↦ (
    λ h. (
      undeclared_sound tpl.params params declared,
      (apply_specs_iff rng params uploads 0 tpl.params tpl.graph).0
          (h.0, rw (declared, reconstruct_graph) at h.1),
    ),
    λ (_, a).
        rw (declared, reconstruct_graph)
          ((apply_specs_iff rng params uploads 0 tpl.params tpl.graph).1 a),
  )
  | inr (key, e) ↦ (
    λ h. cc (rw (e, reconstruct_graph) at h.1),
    λ (k, a). cc (sym e ∙ undeclared_complete tpl.params params k),
  )
]
