-- ===== src/Schema/Reseal/Returns.antt =====
-- A pass over rows whose ids are UUIDs returns, and every row then passes the constraint of the table.
use metamodels.Common.{
  String, ◌≡◌, refl, sym, ap, ◌∙◌, inl, inr, true, false, not, Option, none, some, List, [], ◌∷◌,
  map, arith, Bool-cases, is_some, ◌>>=◌, All, starts_with,
}
use metamodels.JsMap.{get}
use metamodels.Schema.Scan.{literally}
use metamodels.Schema.Sealed.{
  Envelope, SealBinding, Opened, opened, unsealed, bad_binding, Crypto, SealKey, SealKeyring, aad,
  is_current, is_sealed, needs_reseal, parse_envelope, seal, open_sealed, open_with, open_envelope,
  decrypted, print_envelope, envelope_of,
}
use metamodels.Schema.Sealed.RoundTrip.{CryptoLaws, is_fresh, open_sealed-seal}
use metamodels.Schema.Reseal.{
  SecretRow, ResealReport, RowReseal, keeps, aborts, cannot_read, seals, reseals, binding, checked,
  written, reopened, with_row, are_sealed, reseal_row, reseal_rows, reseal_upstream_auth,
}
use metamodels.Schema.Reseal.Pass.{value_of, goes_on, reads, row_checked, row_written, row_reopened}
use metamodels.Schema.Reseal.Twice.{after, reseal_rows-reads}

literally-starts_with : (p s : String) → is_some (literally p s) ≡ starts_with p s
unfolding literally starts_with
literally-starts_with String.[] s = refl
literally-starts_with (String.◌∷◌ c p) String.[] = refl
literally-starts_with (String.◌∷◌ c p) (String.◌∷◌ d s) = ground (arith, literally-starts_with p s)

some_first :
    {A B : Type 0} (o : Option A) (k : A → Option B) → is_some (o >>= k) ≡ true → is_some o ≡ true
some_first none k h = cc
some_first (some a) k h = refl

-- An envelope has the prefix that the constraint asks for.
is_sealed-starts_with : (s : String) → is_sealed s ≡ true → starts_with "sealed:v1:" s ≡ true
unfolding is_sealed parse_envelope
is_sealed-starts_with s h =
    sym (literally-starts_with "sealed:v1:" s) ∙ some_first (literally "sealed:v1:" s) _ h

some_of : {A : Type 0} (o : Option A) → is_some o ≡ true → (a : A) × (o ≡ some a)
some_of none h = cc
some_of (some a) h = (a, refl)

module _ (crypto : Crypto) (laws : CryptoLaws crypto) (lower_case : String → String)
    (ring : SealKeyring crypto) (held : get ring.by_kid ring.current.kid ≡ some ring.current) where
  is_current-some :
      (o : Option Envelope) → not (is_current crypto ring o) ≡ false → is_some o ≡ true
  is_current-some none h = cc
  is_current-some (some e) h = refl

  needs_reseal-sealed :
      (value : String) → needs_reseal crypto value ring ≡ false → is_sealed value ≡ true
  unfolding needs_reseal is_sealed
  needs_reseal-sealed value h = is_current-some (parse_envelope value) h

  -- What is bound to a row never aborts the pass.
  abbrev IsOpen : Opened → Type 0
  IsOpen (opened p) = Unit
  IsOpen (unsealed reason) = Unit
  IsOpen bad_binding = ⊥

  decrypted-IsOpen : (o : Option String) → IsOpen (decrypted crypto o)
  decrypted-IsOpen none = tt
  decrypted-IsOpen (some p) = tt

  open_with-IsOpen :
      (a : String) (e : Envelope) (o : Option (SealKey crypto)) → IsOpen (open_with crypto a e o)
  open_with-IsOpen a e none = tt
  open_with-IsOpen a e (some k) = decrypted-IsOpen _

  open_envelope-IsOpen : (a : String) (o : Option Envelope) → IsOpen (open_envelope crypto a ring o)
  open_envelope-IsOpen a none = tt
  open_envelope-IsOpen a (some e) = open_with-IsOpen a e _

  open_sealed-IsOpen :
      (value a : String) (bind : SealBinding)
      → aad crypto lower_case bind ≡ some a
      → IsOpen (open_sealed crypto lower_case value ring bind)
  unfolding open_sealed
  open_sealed-IsOpen value a bind bound = rw bound (open_envelope-IsOpen a (parse_envelope value))

  -- After its row, the pass goes on, and the row holds an envelope.
  abbrev IsDone : SecretRow → RowReseal → Type 0
  IsDone row r = (goes_on r ≡ true) × (is_sealed (value_of row r) ≡ true)

  checked-IsDone :
      (row : SecretRow) (o : Opened)
      → IsOpen o
      → is_sealed row.value ≡ true
      → IsDone row (checked o)
  checked-IsDone row (opened p) h sealed = (refl, sealed)
  checked-IsDone row (unsealed reason) h sealed = (refl, sealed)
  checked-IsDone row bad_binding h sealed = elim h [ ]

  seal-returns :
      (iv : crypto.Bytes) (plaintext a : String) (bind : SealBinding)
      → aad crypto lower_case bind ≡ some a
      → (v : String) × (seal crypto lower_case plaintext ring bind iv ≡ some v)
  unfolding seal
  seal-returns iv plaintext a bind bound =
      (_, ap (λ o. o >>= λ x. some (print_envelope (envelope_of crypto ring iv x plaintext))) bound)

  written-IsDone :
      (f : String → RowReseal) (iv : crypto.Bytes) (plaintext a : String) (row : SecretRow)
      → is_fresh crypto laws ring iv ≡ true
      → aad crypto lower_case (binding row) ≡ some a
      → ((v : String) → (goes_on (f v) ≡ true) × (value_of row (f v) ≡ v))
      → IsDone row (written f (seal crypto lower_case plaintext ring (binding row) iv))
  written-IsDone f iv plaintext a row fresh bound k =
      let (v, e) = seal-returns iv plaintext a (binding row) bound in
      let (_, _, sealed) =
        open_sealed-seal crypto laws lower_case ring ring (binding row) iv plaintext v fresh held
          e in
      rw e (((k v).0, ap is_sealed ((k v).1) ∙ sealed))

  reopened-IsDone :
      (iv : crypto.Bytes) (a : String) (row : SecretRow) (o : Opened)
      → is_fresh crypto laws ring iv ≡ true
      → aad crypto lower_case (binding row) ≡ some a
      → IsOpen o
      → is_sealed row.value ≡ true
      → IsDone row (reopened (λ p. seal crypto lower_case p ring (binding row) iv) o)
  reopened-IsDone iv a row (opened p) fresh bound h sealed =
      written-IsDone reseals iv p a row fresh bound (λ v. (refl, refl))
  reopened-IsDone iv a row (unsealed reason) fresh bound h sealed = (refl, sealed)
  reopened-IsDone iv a row bad_binding fresh bound h sealed = elim h [ ]

  reseal_row-IsDone :
      (iv : crypto.Bytes) (a : String) (row : SecretRow)
      → is_fresh crypto laws ring iv ≡ true
      → aad crypto lower_case (binding row) ≡ some a
      → IsDone row (reseal_row crypto lower_case ring iv row)
  reseal_row-IsDone iv a row fresh bound =
      let known = open_sealed-IsOpen row.value a (binding row) bound in
      elim (Bool-cases (needs_reseal crypto row.value ring)) [
        | inl stale ↦ elim (Bool-cases (is_sealed row.value)) [
          | inl sealed ↦
              rw (row_reopened crypto laws lower_case ring held iv row stale sealed)
                (reopened-IsDone iv a row _ fresh bound known sealed)
          | inr plain ↦
              rw (row_written crypto laws lower_case ring held iv row stale plain)
                (written-IsDone seals iv row.value a row fresh bound (λ v. (refl, refl)))
        ]
        | inr current ↦
            rw (row_checked crypto laws lower_case ring held iv row current)
              (checked-IsDone row _ known (needs_reseal-sealed row.value current))
      ]

  abbrev pub AreBound : List SecretRow → Type 0
  AreBound rows =
      All (λ (row : SecretRow). is_some (aad crypto lower_case (binding row)) ≡ true) rows

  with_row-returns :
      (row : SecretRow) (r : RowReseal) (rest : ResealReport × List SecretRow)
      → goes_on r ≡ true
      → (made : ResealReport × List SecretRow) × (with_row row r (some rest) ≡ some made)
        × (made.1 ≡ after row r ∷ rest.1)
  with_row-returns row aborts rest h = cc
  with_row-returns row keeps rest h = (_, refl, refl)
  with_row-returns row (cannot_read reason) rest h = (_, refl, refl)
  with_row-returns row (seals value) rest h = (_, refl, refl)
  with_row-returns row (reseals value) rest h = (_, refl, refl)

  module _ (iv_of : String → crypto.Bytes)
      (fresh : (id : String) → is_fresh crypto laws ring (iv_of id) ≡ true) where
    reseal_rows-returns :
        (rows : List SecretRow)
        → AreBound rows
        → (made : ResealReport × List SecretRow) × (reseal_rows crypto lower_case ring iv_of rows
            ≡ some made)
          × (are_sealed made.1 ≡ true)
    unfolding reseal_rows are_sealed
    reseal_rows-returns [] bound = (_, refl, refl)
    reseal_rows-returns (row ∷ rows) (bound, more) =
        let (rest, e, sealed) = reseal_rows-returns rows more in
        let (a, is_a) = some_of (aad crypto lower_case (binding row)) bound in
        let r = reseal_row crypto lower_case ring (iv_of row.id) row in
        let (on, valid) = reseal_row-IsDone (iv_of row.id) a row (fresh row.id) is_a in
        let (made, run, out) = with_row-returns row r rest on in
        (
          made,
          ap (with_row row r) e ∙ run,
          ap are_sealed out ∙ (simp (is_sealed-starts_with (value_of row r) valid, sealed)),
        )

    -- With a keyring that holds its current key under its id, fresh vectors, and rows whose ids are UUIDs, a
    -- pass returns, whether or not the rewrite of the table fails: every row stands for the credential that it stood
    -- for, or is as unreadable as it was, and every value has the prefix that the table's constraint asks for.
    pub reseal_upstream_auth-returns :
        (vacuum : Option String) (rows : List SecretRow)
        → AreBound rows
        → (made : ResealReport × List SecretRow) × (reseal_upstream_auth crypto lower_case ring
              iv_of vacuum rows
            ≡ some made)
          × (map (reads crypto lower_case ring) made.1 ≡ map (reads crypto lower_case ring) rows)
          × (are_sealed made.1 ≡ true)
    unfolding reseal_upstream_auth
    reseal_upstream_auth-returns vacuum rows bound =
        let (made, run, sealed) = reseal_rows-returns rows bound in
        (
          (record (made.0) { vacuum = vacuum }, made.1),
          simp (run, sealed),
          reseal_rows-reads crypto laws lower_case ring held iv_of fresh rows made run,
          sealed,
        )
