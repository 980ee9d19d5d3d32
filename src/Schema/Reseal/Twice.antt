-- ===== src/Schema/Reseal/Twice.antt =====
-- What a whole pass keeps of the credentials, and what a second one finds.
use metamodels.Common.{String, ◌≡◌, refl, true, Option, none, some, List, [], ◌∷◌, map}
use metamodels.JsMap.{get}
use metamodels.Schema.Sealed.{Crypto, SealKeyring}
use metamodels.Schema.Sealed.RoundTrip.{CryptoLaws, is_fresh}
use metamodels.Schema.Reseal.{
  SecretRow, Unreadable, ResealReport, RowReseal, keeps, aborts, cannot_read, seals, reseals,
  with_row, reseal_row, reseal_rows,
}
use metamodels.Schema.Reseal.Pass.{
  value_of, again, goes_on, reads, reseal_row_reads, reseal_row_again,
}

-- A report of a pass that had nothing to seal.
abbrev pub quiet : List Unreadable → ResealReport
quiet unreadable = record { sealed = 0; resealed = 0; unreadable = unreadable; vacuum = none }

abbrev pub after : SecretRow → RowReseal → SecretRow
after row r = record row { value = value_of row r }

abbrev pub reported : SecretRow → RowReseal → List Unreadable → List Unreadable
reported row (cannot_read reason) u = (record { id = row.id; name = row.name; reason = reason }) ∷ u
reported row keeps u = u
reported row aborts u = u
reported row (seals value) u = u
reported row (reseals value) u = u

parts :
    (x made : ResealReport × List SecretRow)
    → some x ≡ some made
    → (made.1 ≡ x.1) × (made.0.unreadable ≡ x.0.unreadable)
parts x made h = (cc, cc)

-- A pass that returns has gone through its first row and through the rest.
pub with_row-some :
    (row : SecretRow) (r : RowReseal) (o : Option (ResealReport × List SecretRow))
    (made : ResealReport × List SecretRow)
    → with_row row r o ≡ some made
    → (goes_on r ≡ true)
      × (rest : ResealReport × List SecretRow) × (o ≡ some rest)
      × (made.1 ≡ after row r ∷ rest.1)
      × (made.0.unreadable ≡ reported row r rest.0.unreadable)
with_row-some row aborts o made h = cc
with_row-some row keeps none made h = cc
with_row-some row (cannot_read reason) none made h = cc
with_row-some row (seals value) none made h = cc
with_row-some row (reseals value) none made h = cc
with_row-some row keeps (some rest) made h =
    let (rows, report) = parts _ made h in (refl, rest, refl, rows, report)
with_row-some row (cannot_read reason) (some rest) made h =
    let (rows, report) = parts _ made h in (refl, rest, refl, rows, report)
with_row-some row (seals value) (some rest) made h =
    let (rows, report) = parts _ made h in (refl, rest, refl, rows, report)
with_row-some row (reseals value) (some rest) made h =
    let (rows, report) = parts _ made h in (refl, rest, refl, rows, report)

with_row-again :
    (row : SecretRow) (r : RowReseal) (u : List Unreadable) (rows : List SecretRow)
    → goes_on r ≡ true
    → with_row (after row r) (again r) (some (quiet u, rows))
      ≡ some (quiet (reported row r u), after row r ∷ rows)
with_row-again row aborts u rows h = cc
with_row-again row keeps u rows h = refl
with_row-again row (cannot_read reason) u rows h = refl
with_row-again row (seals value) u rows h = refl
with_row-again row (reseals value) u rows h = refl

module _ (crypto : Crypto) (laws : CryptoLaws crypto) (lower_case : String → String)
    (ring : SealKeyring crypto) (held : get ring.by_kid ring.current.kid ≡ some ring.current) where
  module _ (iv_of : String → crypto.Bytes)
      (fresh : (id : String) → is_fresh crypto laws ring (iv_of id) ≡ true) where
    -- With a keyring that holds its current key under its id and fresh vectors, a second pass over the rows that a pass left leaves them as they are,
    -- seals and reseals none, and reports the same rows as unreadable.
    pub reseal_rows_twice :
        (iv_of' : String → crypto.Bytes) (rows : List SecretRow)
        (made : ResealReport × List SecretRow)
        → reseal_rows crypto lower_case ring iv_of rows ≡ some made
        → reseal_rows crypto lower_case ring iv_of' made.1 ≡ some (quiet made.0.unreadable, made.1)
    unfolding reseal_rows
    reseal_rows_twice iv_of' [] made h = let (rows, report) = parts _ made h in rw (rows, report)
    reseal_rows_twice iv_of' (row ∷ rows) made h =
        let r = reseal_row crypto lower_case ring (iv_of row.id) row in
        let (on, rest, e, out, report) = with_row-some row r _ made h in
        let ih = reseal_rows_twice iv_of' rows rest e in
        let same =
          reseal_row_again crypto laws lower_case ring held (iv_of row.id) (iv_of' row.id) row
            (fresh row.id) on in
        rw (out, report, same, ih) (with_row-again row r rest.0.unreadable rest.1 on)

    pub reseal_rows-reads :
        (rows : List SecretRow) (made : ResealReport × List SecretRow)
        → reseal_rows crypto lower_case ring iv_of rows ≡ some made
        → map (reads crypto lower_case ring) made.1 ≡ map (reads crypto lower_case ring) rows
    unfolding reseal_rows
    reseal_rows-reads [] made h = let (rows, _) = parts _ made h in rw rows
    reseal_rows-reads (row ∷ rows) made h =
        let r = reseal_row crypto lower_case ring (iv_of row.id) row in
        let (on, rest, e, out, report) = with_row-some row r _ made h in
        rw (
          out,
          reseal_row_reads crypto laws lower_case ring held (iv_of row.id) row (fresh row.id),
          reseal_rows-reads rows rest e,
        )
