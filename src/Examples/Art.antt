-- ===== src/Examples/Art.antt =====
-- The ComfyUI breed on a concrete template.
use metamodels.Common.{ℕ, ◌+◌, ◌≤◌, String, ◌≡◌, refl, ◌↔◌, true, none, [], ◌∷◌, arith, pos}
use metamodels.JsMap.{get, set, has}
use metamodels.Json.{undefined, num, str, obj, end, field}
use metamodels.Connectors.Io.{BreedIo}
use metamodels.Connectors.Comfyui.Template.{Graph, ok, reconstruct_graph, declares}
use metamodels.Connectors.Comfyui.Template.Frame.{Keeps, all_targets, reconstruct_graph-Keeps}
use metamodels.Connectors.Comfyui.Template.Accepts.{AcceptsAll, reconstruct_graph_iff}
use metamodels.Connectors.Comfyui.Submit.Keeps.{IsKept}
use metamodels.Examples.{template, params, draw, art_fence}

abbrev rebuilt : Graph
rebuilt =
    (
      "3",
      record {
        class_type = "KSampler";
        inputs = ("seed", num (pos 42)) ∷ ("steps", num (pos 30)) ∷ [];
      },
    )
    ∷ ("6", record { class_type = "CLIPTextEncode"; inputs = ("text", str "a cat") ∷ [] })
    ∷ []

reconstruct_graph-rebuilt : reconstruct_graph template params [] draw ≡ ok rebuilt
unfolding reconstruct_graph get set
reconstruct_graph-rebuilt = refl

reconstruct_graph-Keeps_example : Keeps (all_targets template.params) template.graph rebuilt
reconstruct_graph-Keeps_example =
    reconstruct_graph-Keeps template params [] draw rebuilt reconstruct_graph-rebuilt

reconstruct_graph_iff_example :
    ((g : Graph) × (reconstruct_graph template params [] draw ≡ ok g)) ↔ (
      ((key : String) → has params key ≡ true → declares template.params key ≡ true)
      × AcceptsAll draw params [] template.graph template.params)
reconstruct_graph_iff_example = reconstruct_graph_iff template params [] draw

-- An `io` that counts the jobs it is told to create.
abbrev counting : BreedIo ℕ
counting = record {
  ids = record { org_id = "o1"; key_id = "k1"; paddock_id = "art-1" };
  upstream = λ req w. (
    record { status = 200; body = obj (field "prompt_id" (str "p1") end); final_frame = undefined },
    w,
  );
  upload = λ name base64 w. (none, w);
  emit_meter = λ events w. w;
  create_job = λ job w. w + 1;
  uuid = λ i. "u";
}

abbrev IsSome : ℕ → Type 0
IsSome n = 1 ≤ n

counting-IsKept : IsKept counting 10 art_fence IsSome
counting-IsKept = record {
  upload = λ name base64 w h. h;
  upstream = λ tpl g w l r h. h;
  accept = λ tpl id w l h. omega (arith, h);
}
