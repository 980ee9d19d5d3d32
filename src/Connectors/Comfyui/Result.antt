-- ===== src/Connectors/Comfyui/Result.antt =====
-- packages/connectors/src/comfyui/result.ts: the outcome of a job in ComfyUI's history.
pub mod Images
use metamodels.Common.{
  String, Bool, false, Option, none, some, List, [], ◌∷◌, ◌++◌, str_eq, if◌then◌else◌, or_else,
  lt_int, sub_int, ℤ, pos,
}
use metamodels.Json.{
  Value, Items, Fields, undefined, nil, cons, end, field, get_field, is_string, is_number, is_true,
  is_record, is_array,
}

pub record Image : Type 0 where
  pub filename : String
  pub subfolder : String
  pub type : String

pub record JobOutcome : Type 0 where
  pub done : Bool
  pub images : List Image
  pub gpu_ms : ℤ

abbrev pub empty : JobOutcome
empty = record { done = false; images = []; gpu_ms = pos 0 }

abbrev text_or_empty : Value → String
text_or_empty v = or_else (is_string v) ""

abbrev image_named : Fields → Option String → List Image
image_named fs none = []
image_named fs (some name) =
    record {
      filename = name;
      subfolder = text_or_empty (get_field fs "subfolder");
      type = text_or_empty (get_field fs "type");
    }
    ∷ []

abbrev image_in : Option Fields → List Image
image_in none = []
image_in (some fs) = image_named fs (is_string (get_field fs "filename"))

-- One entry of a node's `images`.
image_of : Value → List Image
unfolding get_field
image_of v = image_in (is_record v)

images_of_items : Items → List Image
images_of_items nil = []
images_of_items (cons v vs) = image_of v ++ images_of_items vs

abbrev images_in : Option Items → List Image
images_in none = []
images_in (some vs) = images_of_items vs

abbrev node_images : Option Fields → List Image
node_images none = []
node_images (some fs) = images_in (is_array (get_field fs "images"))

-- `for (const node of Object.values(outputs))`
images_of_outputs : Fields → List Image
unfolding image_of images_of_items get_field
images_of_outputs end = []
images_of_outputs (field k node rest) = node_images (is_record node) ++ images_of_outputs rest

-- The times of the start and the success that the messages read so far give.
pub record Times : Type 0 where
  pub start : Option ℤ
  pub success : Option ℤ

abbrev at_time : Times → String → ℤ → Times
at_time times kind ts =
    if str_eq kind "execution_start"
    then record times { start = some ts }
    else if str_eq kind "execution_success"
    then record times { success = some ts }
    else times

abbrev with_payload : Times → Option String → Option Fields → Times
with_payload times none payload = times
with_payload times (some kind) none = times
with_payload times (some kind) (some payload) = elim (is_number (get_field payload "timestamp")) [
  | none ↦ times
  | some ts ↦ at_time times kind ts
]

-- `const [kind, payload] = msg`
abbrev first_item : Items → Value
first_item nil = undefined
first_item (cons v vs) = v

abbrev second_item : Items → Value
second_item nil = undefined
second_item (cons v vs) = first_item vs

abbrev read_message : Times → Option Items → Times
read_message times none = times
read_message times (some msg) =
    with_payload times (is_string (first_item msg)) (is_record (second_item msg))

read_messages : Times → Items → Times
unfolding get_field
read_messages times nil = times
read_messages times (cons msg msgs) = read_messages (read_message times (is_array msg)) msgs

abbrev elapsed : Option ℤ → Option ℤ → ℤ
elapsed (some start) (some success) =
    let d = sub_int success start in if lt_int d (pos 0) then pos 0 else d
elapsed (some start) none = pos 0
elapsed none success = pos 0

derive_gpu_ms : Value → ℤ
unfolding read_messages
derive_gpu_ms messages = elim (is_array messages) [
  | none ↦ pos 0
  | some msgs ↦
      let times = read_messages (record { start = none; success = none }) msgs in
      elapsed times.start times.success
]

-- A missing record reads as one with no properties.
abbrev or_end : Option Fields → Fields
or_end o = or_else o end

parse_entry : Fields → JobOutcome
unfolding derive_gpu_ms images_of_outputs get_field
parse_entry entry =
    let status = or_end (is_record (get_field entry "status")) in
    let outputs = or_end (is_record (get_field entry "outputs")) in
    record {
      done = is_true (get_field status "completed");
      images = images_of_outputs outputs;
      gpu_ms = derive_gpu_ms (get_field status "messages");
    }

abbrev parsed : Option Fields → JobOutcome
parsed none = empty
parsed (some entry) = parse_entry entry

unfoldable pub parse_history : Value → String → JobOutcome
unfolding parse_entry get_field
parse_history history prompt_id = elim (is_record history) [
  | none ↦ empty
  | some fs ↦ parsed (is_record (get_field fs prompt_id))
]
