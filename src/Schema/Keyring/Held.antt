-- ===== src/Schema/Keyring/Held.antt =====
-- What a keyring that was loaded holds.
use mathlib.Core.Path.{subst}
use metamodels.Common.{
  String, ◌≡◌, refl, sym, ap, ◌∙◌, inl, inr, Bool, true, false, Option, none, some, List, [], ◌∷◌,
  str_eq, eq_iff, eq_refl, if◌then◌else◌, Bool-cases, is_some, All, is_empty,
}
use metamodels.JsMap.{JsMap, get, set, has}
use metamodels.JsMap.Laws.{get-set}
use metamodels.Schema.Sealed.{Crypto, SealKey, SealKeyring}
use metamodels.Schema.Keyring.{
  Loaded, loaded, failed, parse_seal_key, add_parsed, add_previous, ring_of, previous_keys,
  with_current, from_raw, load_seal_keyring, repeated, missing,
}

some-inj : {A : Type 0} (x y : A) → some x ≡ some y → x ≡ y
some-inj x y h = cc

loaded-inj : {A : Type 0} (x y : A) → loaded x ≡ loaded y → x ≡ y
loaded-inj x y h = cc

not_repeated :
    {A : Type 0} (b : Bool) (x : Loaded A) (y : A)
    → (if b then failed repeated else x) ≡ loaded y
    → (b ≡ false) × (x ≡ loaded y)
not_repeated true x y h = cc
not_repeated false x y h = (refl, h)

module _ (crypto : Crypto) where
  -- Every key stands under its id.
  abbrev pub IsNamed : JsMap (SealKey crypto) → Type 0
  IsNamed m = All (λ (e : String × SealKey crypto). e.1.kid ≡ e.0) m

  set-IsNamed :
      (m : JsMap (SealKey crypto)) (key : SealKey crypto) → IsNamed m → IsNamed (set m key.kid key)
  unfolding set
  set-IsNamed [] key named = (refl, tt)
  set-IsNamed ((j, w) ∷ m) key (here, later) = elim (Bool-cases (str_eq j key.kid)) [
    | inl same ↦ rw same (sym ((eq_iff j key.kid).0 same), later)
    | inr other ↦ rw other (here, set-IsNamed m key later)
  ]

  -- A previous key whose id is new leaves what was there.
  set_new :
      (m : JsMap (SealKey crypto)) (key current : SealKey crypto)
      → has m key.kid ≡ false
      → get m current.kid ≡ some current
      → get (set m key.kid key) current.kid ≡ some current
  set_new m key current fresh h = elim (Bool-cases (str_eq key.kid current.kid)) [
    | inl same ↦
        let there : has m key.kid ≡ true =
          ap (has m) ((eq_iff key.kid current.kid).0 same) ∙ ap is_some h in
        cc
    | inr other ↦
        get-set m key.kid current.kid key
        ∙ ap (λ b. if b then some key else get m current.kid) other
        ∙ h
  ]

  added :
      (o : Loaded (SealKey crypto))
      (rest : JsMap (SealKey crypto) → Loaded (JsMap (SealKey crypto)))
      (m out : JsMap (SealKey crypto))
      → add_parsed crypto rest m o ≡ loaded out
      → (k : SealKey crypto) × (has m k.kid ≡ false) × (rest (set m k.kid k) ≡ loaded out)
  added (failed e) rest m out h = cc
  added (loaded k) rest m out h =
      let (fresh, e) = not_repeated (has m k.kid) (rest (set m k.kid k)) out h in (k, fresh, e)

  add_previous-holds :
      (current : SealKey crypto) (previous : List String) (m out : JsMap (SealKey crypto))
      → add_previous crypto previous m ≡ loaded out
      → get m current.kid ≡ some current
      → IsNamed m
      → (get out current.kid ≡ some current) × IsNamed out
  unfolding add_previous
  add_previous-holds current [] m out h held named =
      let same = loaded-inj m out h in
      (ap (λ x. get x current.kid) (sym same) ∙ held, subst IsNamed same named)
  add_previous-holds current (p ∷ previous) m out h held named =
      let (k, fresh, rest) =
        added (parse_seal_key crypto p) (add_previous crypto previous) m out h in
      add_previous-holds current previous (set m k.kid k) out rest (set_new m k current fresh held)
        (set-IsNamed m k named)

  alone_held : (k : SealKey crypto) → get ((k.kid, k) ∷ []) k.kid ≡ some k
  unfolding get
  alone_held k = simp (eq_refl k.kid)

  ring_of-holds :
      (current : SealKey crypto) (o : Loaded (JsMap (SealKey crypto))) (ring : SealKeyring crypto)
      → ring_of crypto current o ≡ loaded ring
      → (m : JsMap (SealKey crypto)) × (o ≡ loaded m) × (ring.current ≡ current) × (ring.by_kid ≡ m)
  ring_of-holds current (failed e) ring h = cc
  ring_of-holds current (loaded m) ring h =
      let same = sym (loaded-inj _ ring h) in
      (
        m,
        refl,
        ap (λ (x : SealKeyring crypto). x.current) same,
        ap (λ (x : SealKeyring crypto). x.by_kid) same,
      )

  with_current-holds :
      (previous : Option String) (o : Loaded (SealKey crypto)) (ring : SealKeyring crypto)
      → with_current crypto previous o ≡ loaded ring
      → (get ring.by_kid ring.current.kid ≡ some ring.current) × IsNamed ring.by_kid
  with_current-holds previous (failed e) ring h = cc
  with_current-holds previous (loaded current) ring h =
      let (m, run, c, k) =
        ring_of-holds current
          (add_previous crypto (previous_keys crypto previous) ((current.kid, current) ∷ [])) ring
          h in
      let (held, named) =
        add_previous-holds current (previous_keys crypto previous) ((current.kid, current) ∷ []) m
          run (alone_held current) (refl, tt) in
      (rw (c, k) held, subst IsNamed (sym k) named)

  from_raw-holds :
      (previous key : Option String) (ring : SealKeyring crypto)
      → from_raw crypto previous key ≡ loaded ring
      → (get ring.by_kid ring.current.kid ≡ some ring.current) × IsNamed ring.by_kid
  from_raw-holds previous none ring h = cc
  from_raw-holds previous (some raw) ring h = elim (Bool-cases (is_empty raw)) [
    | inl e ↦
        let bad : failed missing ≡ loaded ring =
          sym (
            ap
              (λ b.
                if b
                then failed missing
                else with_current crypto previous (parse_seal_key crypto raw))
              e)
          ∙ h in
        cc
    | inr e ↦ with_current-holds previous (parse_seal_key crypto raw) ring (sym (simp e) ∙ h)
  ]

  -- A keyring that was loaded holds its current key under its id, and each of its keys stands under its own id.
  pub load_seal_keyring-held :
      (key previous : Option String) (ring : SealKeyring crypto)
      → load_seal_keyring crypto key previous ≡ loaded ring
      → (get ring.by_kid ring.current.kid ≡ some ring.current)
        × All (λ (e : String × SealKey crypto). e.1.kid ≡ e.0) ring.by_kid
  unfolding load_seal_keyring
  load_seal_keyring-held key previous ring run = from_raw-holds previous key ring run
