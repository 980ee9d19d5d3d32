-- ===== src/DataPlane/Pipeline/Gates.antt =====
-- Who may use a paddock, and how often.
use mathlib.Core.Path.{subst}
use metamodels.Common.{
  ℕ, ◌<◌, String, ◌≡◌, refl, sym, ap, ◌∙◌, ◌≢◌, ◌↔◌, inl, inr, true, false, Option, none, some,
  List, [], ◌∷◌, arith, str_eq, eq_iff, leb, if◌then◌else◌, Bool-cases, Option-cases, All, In,
  includes, includes→In, In→includes,
}
use metamodels.Connectors.Breed.{MeterDim}
use metamodels.DataPlane.RateLimit.{check}
use metamodels.DataPlane.World.{ResolvedKey, ResolvedPaddock, World, Breed}
use metamodels.DataPlane.Pipeline.{
  QuotaPeriod, QuotaRule, refusal, Scope, Gate, Deps, found_paddock, paddock_scope, quota_refusal,
  quota, limit_of, bucket_of, limits, is_nullish,
}

-- The caller may use the paddock, and its credential opens.
pub record IsEntitled {C : Type 0} (deps : Deps C) (key : ResolvedKey) (slug : String)
    (p : ResolvedPaddock) (b : Breed C) : Type 0 where
  pub found : deps.get_paddock_by_slug slug ≡ some p
  pub active : p.status ≡ "active"
  pub in_scope : In slug key.paddock_slugs
  pub opens : p.upstream_auth_error ≡ none
  pub breed : deps.breed_of p.breed_id ≡ some b

abbrev pub scope_of : {C : Type 0} → ResolvedKey → ResolvedPaddock → Breed C → Scope C
scope_of key p b = record { resolved_key = key; paddock = p; breed = b }

module _ {C : Type 0} (deps : Deps C) (key : ResolvedKey) (slug : String) where
  -- The answers of the gate for a paddock that is found.
  data Answer (p : ResolvedPaddock) : Gate C → Type 0 where
    inactive : p.status ≢ "active" → Answer p (Gate.refused (refusal 404 "unknown paddock"))
    out_of_scope :
        p.status ≡ "active"
        → ¬ In slug key.paddock_slugs
        → Answer p (Gate.refused (refusal 403 "key not scoped to paddock"))
    sealed :
        p.status ≡ "active"
        → In slug key.paddock_slugs
        → p.upstream_auth_error ≢ none
        → Answer p (Gate.refused (refusal 503 "upstream credential unavailable"))
    unregistered : Answer p Gate.threw
    granted :
        (b : Breed C)
        → p.status ≡ "active"
        → In slug key.paddock_slugs
        → p.upstream_auth_error ≡ none
        → deps.breed_of p.breed_id ≡ some b
        → Answer p (Gate.scoped (scope_of key p b))

  answer : (p : ResolvedPaddock) → Answer p (found_paddock deps key slug (some p))
  answer p = elim (Bool-cases (str_eq p.status "active")) [
    | inr off ↦ simp off (inactive (λ e. cc (sym ((eq_iff p.status "active").1 e) ∙ off)))
    | inl on ↦ elim (Bool-cases (includes key.paddock_slugs slug)) [
      | inr out ↦
          simp (on, out)
            (out_of_scope ((eq_iff _ _).0 on)
              (λ m. cc (sym (In→includes key.paddock_slugs slug m) ∙ out)))
      | inl scoped' ↦ elim (Option-cases p.upstream_auth_error) [
        | inr (reason, e) ↦
            simp (on, scoped', e)
              (sealed ((eq_iff _ _).0 on) (includes→In _ _ scoped') (λ z. cc (sym z ∙ e)))
        | inl opens ↦ elim (Option-cases (deps.breed_of p.breed_id)) [
          | inl missing ↦ simp (on, scoped', opens, missing) unregistered
          | inr (b, e) ↦
              simp (on, scoped', opens, e)
                (granted b ((eq_iff _ _).0 on) (includes→In _ _ scoped') opens e)
        ]
      ]
    ]
  ]

  granted-only :
      {q : ResolvedPaddock} {g : Gate C} (p : ResolvedPaddock) (b : Breed C)
      → Answer q g
      → g ≡ Gate.scoped (scope_of key p b)
      → deps.get_paddock_by_slug slug ≡ some q
      → IsEntitled deps key slug p b
  granted-only p b (inactive off) h e = cc
  granted-only p b (out_of_scope on out) h e = cc
  granted-only p b (sealed on member closed) h e = cc
  granted-only p b unregistered h e = cc
  granted-only {q} p b (granted b' on member opens reg) h e =
      let same_p : q ≡ p = cc h in
      let same_b : b' ≡ b = cc h in
      record {
        found = e ∙ ap some same_p;
        active = subst (λ (x : ResolvedPaddock). x.status ≡ "active") same_p on;
        in_scope = member;
        opens = subst (λ (x : ResolvedPaddock). x.upstream_auth_error ≡ none) same_p opens;
        breed =
            subst (λ (x : ResolvedPaddock). deps.breed_of x.breed_id ≡ some b) same_p
              (reg ∙ ap some same_b);
      }

  answer-key :
      {q : ResolvedPaddock} {g : Gate C} (scope : Scope C)
      → Answer q g
      → g ≡ Gate.scoped scope
      → key ≡ scope.resolved_key
  answer-key scope (inactive off) h = cc
  answer-key scope (out_of_scope on out) h = cc
  answer-key scope (sealed on member closed) h = cc
  answer-key scope unregistered h = cc
  answer-key {q} scope (granted b on member opens reg) h =
      let same : scope_of key q b ≡ scope = cc h in ap (λ (x : Scope C). x.resolved_key) same

  found-key :
      (o : Option ResolvedPaddock) (scope : Scope C)
      → found_paddock deps key slug o ≡ Gate.scoped scope
      → key ≡ scope.resolved_key
  found-key none scope h = cc
  found-key (some q) scope h = answer-key scope (answer q) h

  found_sound :
      (o : Option ResolvedPaddock) (p : ResolvedPaddock) (b : Breed C)
      → deps.get_paddock_by_slug slug ≡ o
      → found_paddock deps key slug o ≡ Gate.scoped (scope_of key p b)
      → IsEntitled deps key slug p b
  found_sound none p b e h = cc
  found_sound (some q) p b e h = granted-only p b (answer q) h e

  found_complete :
      (p : ResolvedPaddock) (b : Breed C)
      → IsEntitled deps key slug p b
      → found_paddock deps key slug (some p) ≡ Gate.scoped (scope_of key p b)
  found_complete p b i = simp (
    (eq_iff p.status "active").1 i.active,
    In→includes key.paddock_slugs slug i.in_scope,
    i.opens,
    i.breed,
  )

  unscoped :
      (p : ResolvedPaddock)
      → includes key.paddock_slugs slug ≡ false
      → found_paddock deps key slug (some p) ≡ (
          if str_eq p.status "active"
          then Gate.refused (refusal 403 "key not scoped to paddock")
          else Gate.refused (refusal 404 "unknown paddock"))
  unscoped p h = elim (Bool-cases (str_eq p.status "active")) [
    | inl on ↦ simp (on, h)
    | inr off ↦ simp off
  ]

-- A caller passes the gate of a paddock exactly when the paddock exists and is active, the caller's key
-- is scoped to it, its upstream credential is not broken, and its breed is registered.
pub paddock_scope_iff :
    {C : Type 0} (deps : Deps C) (key : ResolvedKey) (slug : String) (p : ResolvedPaddock)
    (b : Breed C)
    → (paddock_scope deps key slug ≡ Gate.scoped (scope_of key p b)) ↔ IsEntitled deps key slug p b
unfolding paddock_scope
paddock_scope_iff deps key slug p b = (
  found_sound deps key slug (deps.get_paddock_by_slug slug) p b refl,
  λ i. ap (found_paddock deps key slug) i.found ∙ found_complete deps key slug p b i,
)

-- The scope that the gate gives is the caller's.
pub paddock_scope-key :
    {C : Type 0} (deps : Deps C) (key : ResolvedKey) (slug : String) (scope : Scope C)
    → paddock_scope deps key slug ≡ Gate.scoped scope
    → key ≡ scope.resolved_key
unfolding paddock_scope
paddock_scope-key deps key slug scope h =
    found-key deps key slug (deps.get_paddock_by_slug slug) scope h

not-includes : (xs : List String) (s : String) → ¬ In s xs → includes xs s ≡ false
not-includes xs s h = elim (Bool-cases (includes xs s)) [
  | inl found ↦ absurd (h (includes→In xs s found))
  | inr missing ↦ missing
]

-- A key that is not scoped to a paddock is answered alike for any two paddocks of one status, so the
-- answer tells nothing of the paddock's credential, fence or breed.
pub paddock_scope-hides :
    {C : Type 0} (deps deps' : Deps C) (key : ResolvedKey) (slug : String) (p p' : ResolvedPaddock)
    → ¬ In slug key.paddock_slugs
    → deps.get_paddock_by_slug slug ≡ some p
    → deps'.get_paddock_by_slug slug ≡ some p'
    → p.status ≡ p'.status
    → paddock_scope deps key slug ≡ paddock_scope deps' key slug
unfolding paddock_scope
paddock_scope-hides deps deps' key slug p p' out e e' same =
    let h = not-includes key.paddock_slugs slug out in
    ap (found_paddock deps key slug) e
    ∙ unscoped deps key slug p h
    ∙ ap
        (λ s.
          if str_eq s "active"
          then Gate.refused (refusal 403 "key not scoped to paddock")
          else Gate.refused (refusal 404 "unknown paddock"))
        same
    ∙ sym (ap (found_paddock deps' key slug) e' ∙ unscoped deps' key slug p' h)

-- Every rule has room left in its period.
abbrev pub UnderCaps : (MeterDim → QuotaPeriod → ℕ → ℕ) → ℕ → List QuotaRule → Type 0
UnderCaps used now rules = All (λ (r : QuotaRule). used r.dim r.period now < r.max) rules

quota_refusal_iff :
    {C : Type 0} (deps : Deps C) (used : MeterDim → QuotaPeriod → ℕ → ℕ) (rules : List QuotaRule)
    → (quota_refusal deps used rules ≡ none) ↔ UnderCaps used deps.now rules
unfolding quota_refusal
quota_refusal_iff deps used [] = (λ h. tt, λ h. refl)
quota_refusal_iff deps used (rule ∷ rules) =
    let (to, from) = quota_refusal_iff deps used rules in
    elim (Bool-cases (leb rule.max (used rule.dim rule.period deps.now))) [
      | inl full ↦ (λ h. cc (rw full at h), λ (a, as'). absurd (ground arith))
      | inr room ↦ (λ h. (ground arith, to (rw room at h)), λ (a, as'). rw room (from as'))
    ]

quota_iff :
    {C : Type 0} (deps : Deps C) (scope : Scope C)
    (usage : String → String → MeterDim → QuotaPeriod → ℕ → ℕ) (rules : List QuotaRule)
    → deps.period_usage ≡ some usage
    → is_nullish scope.paddock.fence.quota ≡ false
    → deps.parse_quota scope.paddock.fence.quota ≡ some rules
    → (quota deps scope ≡ none)
      ↔ UnderCaps (usage scope.resolved_key.key_id scope.paddock.paddock_id) deps.now rules
unfolding quota
quota_iff deps scope usage rules has_usage has_quota parses =
    simp (has_usage, has_quota, parses)
      (quota_refusal_iff deps (usage scope.resolved_key.key_id scope.paddock.paddock_id) rules)

-- With usage to read and a quota that parses, a request proceeds exactly when the rate limiter admits
-- it and every rule of the quota has room; and a refusal on either account leaves jobs, meters and
-- upstream servers as they were.
pub limits_iff :
    {C : Type 0} (deps : Deps C) (scope : Scope C) (w : World)
    (usage : String → String → MeterDim → QuotaPeriod → ℕ → ℕ) (rules : List QuotaRule)
    → deps.period_usage ≡ some usage
    → is_nullish scope.paddock.fence.quota ≡ false
    → deps.parse_quota scope.paddock.fence.quota ≡ some rules
    → (((limits deps scope w).0 ≡ none) ↔ (
        ((check w.hits deps.now (bucket_of deps scope) (limit_of deps scope)).0.allowed ≡ true)
        × UnderCaps (usage scope.resolved_key.key_id scope.paddock.paddock_id) deps.now rules))
      × ((limits deps scope w).1.jobs ≡ w.jobs)
      × ((limits deps scope w).1.meters ≡ w.meters)
      × ((limits deps scope w).1.sent ≡ w.sent)
unfolding limits
limits_iff deps scope w usage rules has_usage has_quota parses = (
  elim (Bool-cases (check w.hits deps.now (bucket_of deps scope) (limit_of deps scope)).0.allowed) [
    | inl admitted ↦
        (λ h. (admitted, caps.0 (rw admitted at h)), λ (_, under). rw admitted (caps.1 under))
    | inr refused' ↦ (λ h. cc (rw refused' at h), λ (a, _). cc (sym a ∙ refused'))
  ],
  refl,
  refl,
  refl,
)
  where
    caps :
        (quota deps scope ≡ none)
        ↔ UnderCaps (usage scope.resolved_key.key_id scope.paddock.paddock_id) deps.now rules
    caps = quota_iff deps scope usage rules has_usage has_quota parses
