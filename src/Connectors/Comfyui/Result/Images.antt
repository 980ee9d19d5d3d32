-- ===== src/Connectors/Comfyui/Result/Images.antt =====
-- What the outcome of a job tells.
use metamodels.Common.{
  String, ◌≡◌, refl, sym, ap, ◌∙◌, ◌↔◌, inl, inr, true, false, Option, none, some, arith,
  Option-cases, lt_int, ℤ, pos,
}
use metamodels.Json.{
  Value, Fields, undefined, obj, bool, is_record, is_array, is_true, get_field, prop,
}
use metamodels.Connectors.Comfyui.Result.{
  or_end, parsed, parse_history, parse_entry, derive_gpu_ms, elapsed, read_messages,
}

elapsed-pos : (start success : Option ℤ) → lt_int (elapsed start success) (pos 0) ≡ false
elapsed-pos (some a) (some b) = ground arith
elapsed-pos (some a) none = refl
elapsed-pos none b = refl

derive_gpu_ms-pos : (messages : Value) → lt_int (derive_gpu_ms messages) (pos 0) ≡ false
unfolding derive_gpu_ms
derive_gpu_ms-pos messages = elim (Option-cases (is_array messages)) [
  | inl other ↦ rw (other, derive_gpu_ms)
  | inr (msgs, e) ↦
      let times = read_messages (record { start = none; success = none }) msgs in
      rw (e, derive_gpu_ms) (elapsed-pos times.start times.success)
]

record_field : (v : Value) (k : String) → get_field (or_end (is_record v)) k ≡ prop v k
unfolding prop get_field
record_field (obj fs) k = refl
record_field undefined k = refl
record_field _ k = refl

is_true-eq : (v : Value) → (is_true v ≡ true) ↔ (v ≡ bool true)
is_true-eq (bool true) = (λ h. refl, λ h. refl)
is_true-eq undefined = (λ h. cc, λ h. cc)
is_true-eq _ = (λ h. cc, λ h. cc)

-- `history[id]?.status?.completed`
abbrev pub completed : Value → String → Value
completed history id = prop (prop (prop history id) "status") "completed"

parse_entry-done :
    (entry : Fields)
    → (parse_entry entry).done ≡ is_true (prop (prop (obj entry) "status") "completed")
unfolding parse_entry prop
parse_entry-done entry = ap is_true (record_field (get_field entry "status") "completed")

prop-undefined : (v : Value) (k : String) → is_record v ≡ none → prop v k ≡ undefined
unfolding prop
prop-undefined (obj fs) k h = cc
prop-undefined undefined k h = refl
prop-undefined _ k h = refl

parsed-done :
    (v : Value) → (parsed (is_record v)).done ≡ is_true (prop (prop v "status") "completed")
unfolding prop
parsed-done (obj entry) = parse_entry-done entry
parsed-done undefined = refl
parsed-done _ = refl

history-done :
    (history : Value) (id : String)
    → (parse_history history id).done ≡ is_true (completed history id)
unfolding parse_history prop
history-done (obj fs) id = parsed-done (get_field fs id)
history-done undefined id = refl
history-done _ id = refl

parsed-pos : (o : Option Fields) → lt_int (parsed o).gpu_ms (pos 0) ≡ false
unfolding parse_entry
parsed-pos none = refl
parsed-pos (some entry) =
    derive_gpu_ms-pos (get_field (or_end (is_record (get_field entry "status"))) "messages")

history-pos :
    (history : Value) (id : String) → lt_int (parse_history history id).gpu_ms (pos 0) ≡ false
unfolding parse_history
history-pos (obj fs) id = parsed-pos (is_record (get_field fs id))
history-pos undefined id = refl
history-pos _ id = refl

-- A job is reported done exactly when the history says, under its id, that its status is completed;
-- and the time that it is billed for is not negative, whatever the history holds.
pub parse_history_lem :
    (history : Value) (id : String)
    → (((parse_history history id).done ≡ true) ↔ (completed history id ≡ bool true))
      × (lt_int (parse_history history id).gpu_ms (pos 0) ≡ false)
parse_history_lem history id = (
  (
    λ h. (is_true-eq (completed history id)).0 (sym (history-done history id) ∙ h),
    λ h. history-done history id ∙ (is_true-eq (completed history id)).1 h,
  ),
  history-pos history id,
)
