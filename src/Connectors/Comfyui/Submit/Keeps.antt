-- ===== src/Connectors/Comfyui/Submit/Keeps.antt =====
-- A submission sends nothing to `/prompt` but a graph that is rebuilt from a template of the fence, and
-- records and meters nothing but a job of the caller at the template's cost.
use metamodels.Common.{
  ℕ, ◌+◌, String, ◌≡◌, refl, ◌⊎◌, inl, inr, Bool, Option, none, some, List, [], ◌∷◌, str_eq,
  Bool-cases, Option-cases, find, ℤ,
}
use metamodels.JsMap.{JsMap, get}
use metamodels.Json.{Value, is_string}
use metamodels.Connectors.Breed.{RequestCtx}
use metamodels.Connectors.Io.{BreedIo}
use metamodels.Connectors.Comfyui.Template.{
  ParamSpec, Graph, WorkflowTemplate, ReconstructResult, ok, err, reconstruct_graph,
}
use metamodels.Connectors.Comfyui.Template.Frame.{Keeps, all_targets, reconstruct_graph-Keeps}
use metamodels.Connectors.Comfyui.Submit.{
  ComfyConstraint, SubmitBody, Uploads, refused, uploaded, after_upload, is_image, prompt_request,
  job_of, jobs_event, upload_image, upload_param, upload_spec, upload_all, accept, send,
  submit_uploaded, submit_found, submit_parsed, handle,
}

abbrev pub Listed : WorkflowTemplate → List WorkflowTemplate → Type 0
Listed tpl [] = ⊥
Listed tpl (t ∷ ts) = (t ≡ tpl) ⊎ Listed tpl ts

-- The template's nodes with their classes, and its inputs but those that it declares.
abbrev pub IsRebuilt : WorkflowTemplate → Graph → Type 0
IsRebuilt tpl g = Keeps (all_targets tpl.params) tpl.graph g

-- What every call that a submission may make keeps.
pub record IsKept {W : Type 0} (io : BreedIo W) (now : ℕ) (fence : ComfyConstraint)
    (Inv : W → Type 0) : Type 0 where
  pub upload : (name base64 : String) (w : W) → Inv w → Inv (io.upload name base64 w).1
  pub upstream :
      (tpl : WorkflowTemplate) (g : Graph) (w : W)
      → Listed tpl fence.templates
      → IsRebuilt tpl g
      → Inv w
      → Inv (io.upstream (prompt_request g) w).1
  pub accept :
      (tpl : WorkflowTemplate) (id : String) (w : W)
      → Listed tpl fence.templates
      → Inv w
      → Inv (io.emit_meter (jobs_event io now tpl) (io.create_job (job_of io now tpl id) w))

find-Listed :
    (p : WorkflowTemplate → Bool) (ts : List WorkflowTemplate) (t : WorkflowTemplate)
    → find p ts ≡ some t
    → Listed t ts
find-Listed p [] t h = cc
find-Listed p (x ∷ ts) t h = elim (Bool-cases (p x)) [
  | inl found ↦ inl (cc (rw found at h))
  | inr other ↦ inr (find-Listed p ts t (rw other at h))
]

after_upload-keeps :
    {W : Type 0} {Inv : W → Type 0} (u : Uploads × W) (k : JsMap String → W → Uploads × W)
    → Inv u.1
    → ((files : JsMap String) (w : W) → Inv w → Inv (k files w).1)
    → Inv (after_upload u k).1
after_upload-keeps (refused e, w) k h next = h
after_upload-keeps (uploaded files, w) k h next = next files w h

module _ {W : Type 0} (io : BreedIo W) (now : ℕ) (fence : ComfyConstraint) (Inv : W → Type 0)
    (kept : IsKept io now fence Inv) where
  upload_param-keeps :
      (params : JsMap Value) (i : ℕ) (name : String) (files : JsMap String) (o : Option String)
      (w : W)
      → Inv w
      → Inv (upload_param io params i name files o w).1
  unfolding upload_param upload_image
  upload_param-keeps params i name files none w h = h
  upload_param-keeps params i name files (some raw) w h = kept.upload _ raw w h

  upload_spec-keeps :
      (params : JsMap Value) (i : ℕ) (s : ParamSpec) (files : JsMap String) (w : W)
      → Inv w
      → Inv (upload_spec io params i s files w).1
  unfolding upload_spec
  upload_spec-keeps params i s files w h = elim (Bool-cases (is_image s.kind)) [
    | inl img ↦ elim (Option-cases (get params s.name)) [
      | inl missing ↦ rw (img, missing) h
      | inr (v, e) ↦ rw (img, e) (upload_param-keeps params i s.name files (is_string v) w h)
    ]
    | inr other ↦ rw other h
  ]

  upload_all-keeps :
      (params : JsMap Value) (i : ℕ) (specs : List ParamSpec) (files : JsMap String) (w : W)
      → Inv w
      → Inv (upload_all io params i specs files w).1
  unfolding upload_all
  upload_all-keeps params i [] files w h = h
  upload_all-keeps params i (s ∷ specs) files w h =
      after_upload-keeps (upload_spec io params i s files w) _
        (upload_spec-keeps params i s files w h)
        (λ files' w' h'. upload_all-keeps params (i + 1) specs files' w' h')

  accept-keeps :
      (tpl : WorkflowTemplate) (o : Option String) (w : W)
      → Listed tpl fence.templates
      → Inv w
      → Inv (accept io now tpl o w).1
  unfolding accept
  accept-keeps tpl none w l h = h
  accept-keeps tpl (some id) w l h = kept.accept tpl id w l h

  send-keeps :
      (tpl : WorkflowTemplate) (r : ReconstructResult) (w : W)
      → Listed tpl fence.templates
      → ((g : Graph) → r ≡ ok g → IsRebuilt tpl g)
      → Inv w
      → Inv (send io now tpl r w).1
  unfolding send
  send-keeps tpl (err reason) w l rebuilt h = h
  send-keeps tpl (ok g) w l rebuilt h =
      accept-keeps tpl _ (io.upstream (prompt_request g) w).1 l
        (kept.upstream tpl g w l (rebuilt g refl) h)

  submit_uploaded-keeps :
      (rng : ℕ → ℤ) (tpl : WorkflowTemplate) (params : JsMap Value) (u : Uploads) (w : W)
      → Listed tpl fence.templates
      → Inv w
      → Inv (submit_uploaded io now rng tpl params (u, w)).1
  submit_uploaded-keeps rng tpl params (refused e) w l h = h
  submit_uploaded-keeps rng tpl params (uploaded files) w l h =
      send-keeps tpl (reconstruct_graph tpl params files rng) w l
        (reconstruct_graph-Keeps tpl params files rng) h

  submit_found-keeps :
      (rng : ℕ → ℤ) (id : String) (params : JsMap Value) (o : Option WorkflowTemplate) (w : W)
      → ((t : WorkflowTemplate) → o ≡ some t → Listed t fence.templates)
      → Inv w
      → Inv (submit_found io now rng id params o w).1
  submit_found-keeps rng id params none w l h = h
  submit_found-keeps rng id params (some tpl) w l h =
      submit_uploaded-keeps rng tpl params (upload_all io params 0 tpl.params [] w).0
        (upload_all io params 0 tpl.params [] w).1 (l tpl refl)
        (upload_all-keeps params 0 tpl.params [] w h)

  submit_parsed-keeps :
      (rng : ℕ → ℤ) (o : Option SubmitBody) (w : W)
      → Inv w
      → Inv (submit_parsed io now rng fence o w).1
  submit_parsed-keeps rng none w h = h
  submit_parsed-keeps rng (some b) w h =
      submit_found-keeps rng b.template_id b.params
        (find (λ (t : WorkflowTemplate). str_eq t.id b.template_id) fence.templates) w
        (find-Listed (λ (t : WorkflowTemplate). str_eq t.id b.template_id) fence.templates) h

-- Whatever a caller submits, a property of the state holds after `handle` if it held before and is kept
-- by uploads, by sending a graph that is rebuilt from a template of the fence, and by recording and
-- metering a job of the caller for such a template, at its cost.
pub handle-keeps :
    {W : Type 0} (parse : Value → Option SubmitBody) (rng : ℕ → ℤ) (now : ℕ) (ctx : RequestCtx)
    (fence : ComfyConstraint) (io : BreedIo W) (w : W) (Inv : W → Type 0)
    → IsKept io now fence Inv
    → Inv w
    → Inv (handle parse rng now ctx fence io w).1
unfolding handle
handle-keeps parse rng now ctx fence io w Inv kept h =
    submit_parsed-keeps io now fence Inv kept rng (parse ctx.body) w h
