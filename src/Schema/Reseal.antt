-- ===== src/Schema/Reseal.antt =====
-- packages/schema/src/reseal.ts: every stored credential is brought under the current key.
pub mod Pass
pub mod Twice
pub mod Returns
use metamodels.Common.{
  ℕ, suc, String, Bool, true, not, ◌&&◌, Option, none, some, List, [], ◌∷◌, if◌then◌else◌, ◌>>=◌,
  starts_with,
}
use metamodels.Schema.Sealed.{
  SealBinding, UnsealReason, Opened, opened, unsealed, bad_binding, Crypto, SealKeyring, is_sealed,
  needs_reseal, seal, open_sealed,
}

-- A row of the table `flock` whose credential is not null.
pub record SecretRow : Type 0 where
  pub id : String
  pub org_id : String
  pub name : String
  pub value : String

pub record Unreadable : Type 0 where
  pub id : String
  pub name : String
  pub reason : UnsealReason

-- `vacuum` is the failure of the rewrite of the table, if it failed.
pub record ResealReport : Type 0 where
  pub sealed : ℕ
  pub resealed : ℕ
  pub unreadable : List Unreadable
  pub vacuum : Option String

-- What the loop does with a row; `aborts` is an error that is no `UnsealError`.
pub data RowReseal : Type 0 where
  keeps aborts : RowReseal
  cannot_read : UnsealReason → RowReseal
  seals reseals : String → RowReseal

abbrev pub binding : SecretRow → SealBinding
binding row = record { org_id = row.org_id; flock_id = row.id }

abbrev pub checked : Opened → RowReseal
checked (opened plaintext) = keeps
checked (unsealed reason) = cannot_read reason
checked bad_binding = aborts

abbrev pub written : (String → RowReseal) → Option String → RowReseal
written f none = aborts
written f (some value) = f value

abbrev pub reopened : (String → Option String) → Opened → RowReseal
reopened seal_again (opened plaintext) = written reseals (seal_again plaintext)
reopened seal_again (unsealed reason) = cannot_read reason
reopened seal_again bad_binding = aborts

abbrev pub no_report : ResealReport
no_report = record { sealed = 0; resealed = 0; unreadable = []; vacuum = none }

-- One row and the rest of the pass.
abbrev pub with_row :
    SecretRow
    → RowReseal
    → Option (ResealReport × List SecretRow)
    → Option (ResealReport × List SecretRow)
with_row row aborts rest = none
with_row row keeps none = none
with_row row keeps (some (report, rows)) = some (report, row ∷ rows)
with_row row (cannot_read reason) none = none
with_row row (cannot_read reason) (some (report, rows)) = some (
  record report {
    unreadable = (record { id = row.id; name = row.name; reason = reason }) ∷ report.unreadable;
  },
  row ∷ rows,
)
with_row row (seals value) none = none
with_row row (seals value) (some (report, rows)) =
    some (record report { sealed = suc report.sealed }, (record row { value = value }) ∷ rows)
with_row row (reseals value) none = none
with_row row (reseals value) (some (report, rows)) =
    some (record report { resealed = suc report.resealed }, (record row { value = value }) ∷ rows)

-- The constraint `flock_upstream_auth_sealed` of schema.ts.
unfoldable pub are_sealed : List SecretRow → Bool
unfolding starts_with
are_sealed [] = true
are_sealed (row ∷ rows) = starts_with "sealed:v1:" row.value && are_sealed rows

module _ (crypto : Crypto) (lower_case : String → String) (ring : SealKeyring crypto) where
  unfoldable pub reseal_row : crypto.Bytes → SecretRow → RowReseal
  unfolding needs_reseal is_sealed seal open_sealed
  reseal_row iv row =
      if not (needs_reseal crypto row.value ring)
      then checked (open_sealed crypto lower_case row.value ring (binding row))
      else if not (is_sealed row.value)
      then written seals (seal crypto lower_case row.value ring (binding row) iv)
      else reopened (λ p. seal crypto lower_case p ring (binding row) iv)
          (open_sealed crypto lower_case row.value ring (binding row))

  -- The loop: the update of a row by its id, the primary key, writes that row. `iv_of` is random.
  unfoldable pub reseal_rows :
      (String → crypto.Bytes) → List SecretRow → Option (ResealReport × List SecretRow)
  unfolding reseal_row
  reseal_rows iv_of [] = some (no_report, [])
  reseal_rows iv_of (row ∷ rows) =
      with_row row (reseal_row (iv_of row.id) row) (reseal_rows iv_of rows)

  -- `VALIDATE CONSTRAINT` fails on a value without the prefix, and the transaction with it.
  unfoldable pub reseal_upstream_auth :
      (String → crypto.Bytes)
      → Option String
      → List SecretRow
      → Option (ResealReport × List SecretRow)
  unfolding reseal_rows are_sealed
  reseal_upstream_auth iv_of vacuum rows = do
    (report, rows') ← reseal_rows iv_of rows
    if are_sealed rows' then some (record report { vacuum = vacuum }, rows') else none
