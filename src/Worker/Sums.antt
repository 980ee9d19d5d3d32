-- ===== src/Worker/Sums.antt =====
-- What the rollups hold after a batch of events.
use metamodels.Common.{
  ℕ, ◌≡◌, refl, sym, ap, ◌∙◌, inl, inr, true, Option, none, some, List, [], ◌∷◌, ◌++◌, str_eq,
  eq_iff, eq_refl, if◌then◌else◌, Bool-cases, and_split, add_int, ℤ,
}
use metamodels.Connectors.Breed.{MeterDim, tokens_in, tokens_out, jobs, gpu_ms, images}
use metamodels.Worker.{
  RollupEvent, Row, UtcDate, same_dim, row_of, same_target, upsert, apply_events,
}

same_dim-eq : (d e : MeterDim) → same_dim d e ≡ true → d ≡ e
same_dim-eq tokens_in tokens_in h = refl
same_dim-eq tokens_out tokens_out h = refl
same_dim-eq jobs jobs h = refl
same_dim-eq gpu_ms gpu_ms h = refl
same_dim-eq images images h = refl
same_dim-eq _ _ h = cc

same_target_trans : (a b c : Row) → same_target a b ≡ true → same_target a c ≡ same_target b c
same_target_trans a b c h =
    let (h1, dim) = and_split _ (same_dim a.dim b.dim) h in
    let (h2, period) = and_split _ (str_eq a.period b.period) h1 in
    let (h3, paddock) = and_split _ (str_eq a.paddock_id b.paddock_id) h2 in
    let (org, key) = and_split (str_eq a.org_id b.org_id) (str_eq a.key_id b.key_id) h3 in
    simp (
      (eq_iff a.org_id b.org_id).0 org,
      (eq_iff a.key_id b.key_id).0 key,
      (eq_iff a.paddock_id b.paddock_id).0 paddock,
      (eq_iff a.period b.period).0 period,
      same_dim-eq a.dim b.dim dim,
    )

same_dim_refl : (d : MeterDim) → same_dim d d ≡ true
same_dim_refl tokens_in = refl
same_dim_refl tokens_out = refl
same_dim_refl jobs = refl
same_dim_refl gpu_ms = refl
same_dim_refl images = refl

same_target_refl : (a : Row) → same_target a a ≡ true
same_target_refl a = simp (
  eq_refl a.org_id,
  eq_refl a.key_id,
  eq_refl a.paddock_id,
  eq_refl a.period,
  same_dim_refl a.dim,
)

same_target_join :
    (a b q : Row) → same_target a q ≡ true → same_target b q ≡ true → same_target a b ≡ true
same_target_join a b q h k =
    same_target_trans a q b h ∙ sym (same_target_trans b q b k) ∙ same_target_refl b

-- The value of the row that has the target of `q`.
abbrev pub value_at : List Row → Row → Option ℤ
value_at [] q = none
value_at (row ∷ rows) q =
    let rest = value_at rows q in if same_target row q then some row.value else rest

abbrev pub added : Option ℤ → ℤ → ℤ
added none v = v
added (some x) v = add_int x v

upsert-value_at :
    (rows : List Row) (new q : Row)
    → value_at (upsert rows new) q
      ≡ (if same_target new q then some (added (value_at rows q) new.value) else value_at rows q)
unfolding upsert
upsert-value_at [] new q = refl
upsert-value_at (row ∷ rows) new q = elim (Bool-cases (same_target row new)) [
  | inl hit ↦ elim (Bool-cases (same_target new q)) [
    | inl same ↦ simp (hit, same_target_trans row new q hit, same)
    | inr other ↦ simp (hit, same_target_trans row new q hit, other)
  ]
  | inr miss ↦ elim (Bool-cases (same_target row q)) [
    | inr other ↦ simp (miss, other, upsert-value_at rows new q)
    | inl same ↦ elim (Bool-cases (same_target new q)) [
      | inl same' ↦ cc (sym (same_target_join row new q same same') ∙ miss)
      | inr other ↦ simp (miss, same, other)
    ]
  ]
]

-- The description: the values of the events of one target, added up in their order.
abbrev pub sum_of : (ℕ → UtcDate) → Row → Option ℤ → List RollupEvent → Option ℤ
sum_of utc q o [] = o
sum_of utc q o (e ∷ es) =
    sum_of utc q (if same_target (row_of utc e) q then some (added o e.value) else o) es

-- After a batch, the value of each target, an organisation's key on a paddock, an hour and a dimension, is
-- what it was with the values of the batch's events of that target added in their order, and there is a
-- row for it exactly where there was one or the batch has such an event.
pub apply_events-sum_of :
    (utc : ℕ → UtcDate) (rows : List Row) (es : List RollupEvent) (q : Row)
    → value_at (apply_events utc rows es) q ≡ sum_of utc q (value_at rows q) es
unfolding apply_events
apply_events-sum_of utc rows [] q = refl
apply_events-sum_of utc rows (e ∷ es) q =
    apply_events-sum_of utc (upsert rows (row_of utc e)) es q
    ∙ ap (λ o. sum_of utc q o es) (upsert-value_at rows (row_of utc e) q)

pub apply_events-append :
    (utc : ℕ → UtcDate) (rows : List Row) (es fs : List RollupEvent)
    → apply_events utc rows (es ++ fs) ≡ apply_events utc (apply_events utc rows es) fs
unfolding apply_events
apply_events-append utc rows [] fs = refl
apply_events-append utc rows (e ∷ es) fs =
    apply_events-append utc (upsert rows (row_of utc e)) es fs
