-- ===== src/Schema/Reseal/Pass.antt =====
-- What a pass leaves of each credential, and a second pass.
use metamodels.Common.{
  String, ◌≡◌, refl, sym, ap, ◌∙◌, inl, inr, Bool, true, false, Option, none, some, if◌then◌else◌,
  Bool-cases,
}
use metamodels.Schema.Sealed.{
  Opened, opened, unsealed, bad_binding, Crypto, SealKeyring, is_sealed, needs_reseal, seal,
  open_sealed,
}
use metamodels.JsMap.{get}
use metamodels.Schema.Sealed.RoundTrip.{CryptoLaws, is_fresh, open_sealed-seal}
use metamodels.Schema.Reseal.{
  SecretRow, RowReseal, keeps, aborts, cannot_read, seals, reseals, binding, checked, written,
  reopened, reseal_row,
}

-- What the row holds afterwards.
abbrev pub value_of : SecretRow → RowReseal → String
value_of row (seals value) = value
value_of row (reseals value) = value
value_of row keeps = row.value
value_of row aborts = row.value
value_of row (cannot_read reason) = row.value

-- What a second pass makes of the row that the first left.
abbrev pub again : RowReseal → RowReseal
again (seals value) = keeps
again (reseals value) = keeps
again keeps = keeps
again aborts = aborts
again (cannot_read reason) = cannot_read reason

abbrev pub goes_on : RowReseal → Bool
goes_on aborts = false
goes_on (seals value) = true
goes_on (reseals value) = true
goes_on keeps = true
goes_on (cannot_read reason) = true

module _ (crypto : Crypto) (lower_case : String → String) (ring : SealKeyring crypto) where
  -- The credential that a row stands for: a value that is no envelope is the plaintext of an old one.
  unfoldable pub reads : SecretRow → Opened
  unfolding is_sealed open_sealed
  reads row =
      if is_sealed row.value
      then open_sealed crypto lower_case row.value ring (binding row)
      else opened row.value

module _ (crypto : Crypto) (laws : CryptoLaws crypto) (lower_case : String → String)
    (ring : SealKeyring crypto) (held : get ring.by_kid ring.current.kid ≡ some ring.current) where
  -- The three branches of the loop.
  pub row_checked :
      (iv : crypto.Bytes) (row : SecretRow)
      → needs_reseal crypto row.value ring ≡ false
      → reseal_row crypto lower_case ring iv row
        ≡ checked (open_sealed crypto lower_case row.value ring (binding row))
  unfolding reseal_row
  row_checked iv row current = simp current

  pub row_written :
      (iv : crypto.Bytes) (row : SecretRow)
      → needs_reseal crypto row.value ring ≡ true
      → is_sealed row.value ≡ false
      → reseal_row crypto lower_case ring iv row
        ≡ written seals (seal crypto lower_case row.value ring (binding row) iv)
  unfolding reseal_row
  row_written iv row stale plain = simp (stale, plain)

  pub row_reopened :
      (iv : crypto.Bytes) (row : SecretRow)
      → needs_reseal crypto row.value ring ≡ true
      → is_sealed row.value ≡ true
      → reseal_row crypto lower_case ring iv row
        ≡ reopened
            (λ p. seal crypto lower_case p ring (binding row) iv)
            (open_sealed crypto lower_case row.value ring (binding row))
  unfolding reseal_row
  row_reopened iv row stale sealed = simp (stale, sealed)

  -- A row under the current key is kept by any pass.
  kept_again :
      (iv iv' : crypto.Bytes) (plaintext value : String) (row : SecretRow)
      → is_fresh crypto laws ring iv ≡ true
      → seal crypto lower_case plaintext ring (binding row) iv ≡ some value
      → reseal_row crypto lower_case ring iv' (record row { value = value }) ≡ keeps
  unfolding reseal_row
  kept_again iv iv' plaintext value row fresh run =
      let (opens, current, sealed) =
        open_sealed-seal crypto laws lower_case ring ring (binding row) iv plaintext value fresh
          held run in
      simp (current, opens)

  -- A second pass after one that did `r` with the row.
  abbrev pub Repeats : crypto.Bytes → SecretRow → RowReseal → Type 0
  Repeats iv' row r =
      reseal_row crypto lower_case ring iv' (record row { value = value_of row r }) ≡ again r

  written-again :
      (f : String → RowReseal) (iv iv' : crypto.Bytes) (plaintext : String) (row : SecretRow)
      (o : Option String)
      → is_fresh crypto laws ring iv ≡ true
      → seal crypto lower_case plaintext ring (binding row) iv ≡ o
      → ((v : String) → value_of row (f v) ≡ v)
      → ((v : String) → again (f v) ≡ keeps)
      → goes_on (written f o) ≡ true
      → Repeats iv' row (written f o)
  written-again f iv iv' plaintext row none fresh run v k h = cc
  written-again f iv iv' plaintext row (some value) fresh run v k h =
      ap (λ x. reseal_row crypto lower_case ring iv' (record row { value = x })) (v value)
      ∙ kept_again iv iv' plaintext value row fresh run
      ∙ sym (k value)

  checked_again :
      (iv' : crypto.Bytes) (row : SecretRow) (o : Opened)
      → needs_reseal crypto row.value ring ≡ false
      → open_sealed crypto lower_case row.value ring (binding row) ≡ o
      → goes_on (checked o) ≡ true
      → Repeats iv' row (checked o)
  unfolding reseal_row
  checked_again iv' row (opened p) current e h = simp (current, e)
  checked_again iv' row (unsealed reason) current e h = simp (current, e)
  checked_again iv' row bad_binding current e h = cc

  reopened_again :
      (iv iv' : crypto.Bytes) (row : SecretRow) (o : Opened)
      → is_fresh crypto laws ring iv ≡ true
      → needs_reseal crypto row.value ring ≡ true
      → is_sealed row.value ≡ true
      → open_sealed crypto lower_case row.value ring (binding row) ≡ o
      → goes_on (reopened (λ p. seal crypto lower_case p ring (binding row) iv) o) ≡ true
      → Repeats iv' row (reopened (λ p. seal crypto lower_case p ring (binding row) iv) o)
  unfolding reseal_row
  reopened_again iv iv' row (opened p) fresh stale sealed e h =
      written-again reseals iv iv' p row _ fresh refl (λ v. refl) (λ v. refl) h
  reopened_again iv iv' row (unsealed reason) fresh stale sealed e h = simp (stale, sealed, e)
  reopened_again iv iv' row bad_binding fresh stale sealed e h = cc

  -- What the pass did leaves what is read as it is.
  abbrev pub Preserves : SecretRow → RowReseal → Type 0
  Preserves row r =
      reads crypto lower_case ring (record row { value = value_of row r })
      ≡ reads crypto lower_case ring row

  written-reads :
      (f : String → RowReseal) (iv : crypto.Bytes) (plaintext : String) (row : SecretRow)
      (o : Option String)
      → is_fresh crypto laws ring iv ≡ true
      → seal crypto lower_case plaintext ring (binding row) iv ≡ o
      → ((v : String) → value_of row (f v) ≡ v)
      → reads crypto lower_case ring row ≡ opened plaintext
      → Preserves row (written f o)
  unfolding reads
  written-reads f iv plaintext row none fresh run v h = refl
  written-reads f iv plaintext row (some value) fresh run v h =
      let (opens, _, sealed) =
        open_sealed-seal crypto laws lower_case ring ring (binding row) iv plaintext value fresh
          held run in
      ap (λ x. reads crypto lower_case ring (record row { value = x })) (v value)
      ∙ (simp (sealed, opens))
      ∙ sym h

  checked_reads : (row : SecretRow) (o : Opened) → Preserves row (checked o)
  checked_reads row (opened p) = refl
  checked_reads row (unsealed reason) = refl
  checked_reads row bad_binding = refl

  reopened_reads :
      (iv : crypto.Bytes) (row : SecretRow) (o : Opened)
      → is_fresh crypto laws ring iv ≡ true
      → is_sealed row.value ≡ true
      → open_sealed crypto lower_case row.value ring (binding row) ≡ o
      → Preserves row (reopened (λ p. seal crypto lower_case p ring (binding row) iv) o)
  unfolding reads
  reopened_reads iv row (opened p) fresh sealed e =
      written-reads reseals iv p row _ fresh refl (λ v. refl) (simp (sealed, e))
  reopened_reads iv row (unsealed reason) fresh sealed e = refl
  reopened_reads iv row bad_binding fresh sealed e = refl

  pub reseal_row_reads :
      (iv : crypto.Bytes) (row : SecretRow)
      → is_fresh crypto laws ring iv ≡ true
      → Preserves row (reseal_row crypto lower_case ring iv row)
  unfolding reseal_row reads
  reseal_row_reads iv row fresh = elim (Bool-cases (needs_reseal crypto row.value ring)) [
    | inl stale ↦ elim (Bool-cases (is_sealed row.value)) [
      | inl sealed ↦
          rw (row_reopened iv row stale sealed) (reopened_reads iv row _ fresh sealed refl)
      | inr plain ↦
          rw (row_written iv row stale plain)
            (written-reads seals iv row.value row _ fresh refl (λ v. refl) (simp plain))
    ]
    | inr current ↦ rw (row_checked iv row current) (checked_reads row _)
  ]

  moved :
      (iv' : crypto.Bytes) (row : SecretRow) (r x : RowReseal)
      → r ≡ x
      → goes_on r ≡ true
      → (goes_on x ≡ true → Repeats iv' row x)
      → Repeats iv' row r
  moved iv' row r x e h k = rw e (k (sym (ap goes_on e) ∙ h))

  pub reseal_row_again :
      (iv iv' : crypto.Bytes) (row : SecretRow)
      → is_fresh crypto laws ring iv ≡ true
      → goes_on (reseal_row crypto lower_case ring iv row) ≡ true
      → Repeats iv' row (reseal_row crypto lower_case ring iv row)
  reseal_row_again iv iv' row fresh h = elim (Bool-cases (needs_reseal crypto row.value ring)) [
    | inl stale ↦ elim (Bool-cases (is_sealed row.value)) [
      | inl sealed ↦
          moved iv' row _ _ (row_reopened iv row stale sealed) h
            (reopened_again iv iv' row _ fresh stale sealed refl)
      | inr plain ↦
          moved iv' row _ _ (row_written iv row stale plain) h
            (written-again seals iv iv' row.value row _ fresh refl (λ v. refl) (λ v. refl))
    ]
    | inr current ↦
        moved iv' row _ _ (row_checked iv row current) h (checked_again iv' row _ current refl)
  ]
