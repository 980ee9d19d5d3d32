-- ===== src/Examples/Seals.antt =====
-- A cipher that keeps its laws, and the rows of a table that is brought under a new key.
use metamodels.Common.{
  ℕ, zero, suc, ◌+◌, String, ◌≡◌, refl, ap, ◌∙◌, true, false, Option, none, some, List, [], ◌∷◌,
  map, arith, ◌==◌, if◌then◌else◌,
}
use Prim.Native.Nat.{Ordering, compare}
use Prim.Native.Char.{Char, char, code, IsLt, IsScalar}
use metamodels.JsMap.{get}
use metamodels.Schema.Sealed.{
  is_base64url, Crypto, SealKey, SealKeyring, SealBinding, opened, seal, open_sealed, needs_reseal,
  is_sealed, aad, is_uuid, parse_envelope,
}
use metamodels.Schema.Scan.{only, fits, exactly, as_many, literally}
use metamodels.Schema.Sealed.RoundTrip.{CryptoLaws, is_fresh, open_sealed-seal}
use metamodels.Schema.Reseal.{
  SecretRow, ResealReport, no_report, reseal_row, reseal_rows, reseal_upstream_auth, are_sealed,
}
use metamodels.Schema.Reseal.Pass.{reads}
use metamodels.Schema.Reseal.Twice.{quiet, reseal_rows_twice}
use metamodels.Schema.Reseal.Returns.{AreBound, reseal_upstream_auth-returns}

abbrev pub ScalarBoth : Ordering → Ordering → Type 0
ScalarBoth Ordering.lt o = IsLt o
ScalarBoth Ordering.eq _ = ⊥
ScalarBoth Ordering.gt _ = ⊥

abbrev pub Scalar : Ordering → Ordering → Ordering → Type 0
Scalar Ordering.lt _ _ = Unit
Scalar Ordering.eq o p = ScalarBoth o p
Scalar Ordering.gt o p = ScalarBoth o p

abbrev pub scalar_both? : (o p : Ordering) → Option (ScalarBoth o p)
scalar_both? Ordering.lt Ordering.lt = some tt
scalar_both? Ordering.lt Ordering.eq = none
scalar_both? Ordering.lt Ordering.gt = none
scalar_both? Ordering.eq _ = none
scalar_both? Ordering.gt _ = none

abbrev pub scalar? : (o p q : Ordering) → Option (Scalar o p q)
scalar? Ordering.lt _ _ = some tt
scalar? Ordering.eq o p = scalar_both? o p
scalar? Ordering.gt o p = scalar_both? o p

scalar_both?-some : (o p : Ordering) (h : ScalarBoth o p) → scalar_both? o p ≡ some h
scalar_both?-some Ordering.lt Ordering.lt tt = refl
scalar_both?-some Ordering.lt Ordering.eq h = elim h [ ]
scalar_both?-some Ordering.lt Ordering.gt h = elim h [ ]
scalar_both?-some Ordering.eq _ h = elim h [ ]
scalar_both?-some Ordering.gt _ h = elim h [ ]

scalar?-some : (o p q : Ordering) (h : Scalar o p q) → scalar? o p q ≡ some h
scalar?-some Ordering.lt p q tt = refl
scalar?-some Ordering.eq p q h = scalar_both?-some p q h
scalar?-some Ordering.gt p q h = scalar_both?-some p q h

abbrev pub char_if : (n : ℕ) → Option (IsScalar n) → Option Char
char_if n none = none
char_if n (some h) = some (char n h)

abbrev pub char_of : ℕ → Option Char
char_of n = char_if n (scalar? (compare n 55296) (compare 57343 n) (compare n 1114112))

char_of-code : (c : Char) → char_of (code c) ≡ some c
char_of-code (char n h) =
    ap (char_if n) (scalar?-some (compare n 55296) (compare 57343 n) (compare n 1114112) h)

-- Bytes of the toy cipher, with one character of base64url for each.
pub data Letter : Type 0 where
  stroke stop : Letter

abbrev pub to_text : List Letter → String
to_text [] = String.[]
to_text (stroke ∷ b) = String.◌∷◌ "A" (to_text b)
to_text (stop ∷ b) = String.◌∷◌ "B" (to_text b)

abbrev pub of_text : String → List Letter
of_text String.[] = []
of_text (String.◌∷◌ c s) =
    let rest = of_text s in if code c == b'A' then stroke ∷ rest else stop ∷ rest

of_text-to_text : (b : List Letter) → of_text (to_text b) ≡ b
of_text-to_text [] = refl
of_text-to_text (stroke ∷ b) = rw (of_text-to_text b)
of_text-to_text (stop ∷ b) = rw (of_text-to_text b)

to_text-only : (b : List Letter) → only is_base64url (to_text b) ≡ true
unfolding only
to_text-only [] = refl
to_text-only (stroke ∷ b) = to_text-only b
to_text-only (stop ∷ b) = to_text-only b

-- A character is as many strokes as its code.
abbrev pub strokes : ℕ → List Letter → List Letter
strokes zero rest = stop ∷ rest
strokes (suc n) rest = stroke ∷ strokes n rest

abbrev pub unary : String → List Letter
unary String.[] = []
unary (String.◌∷◌ c s) = strokes (code c) (unary s)

abbrev pub read_char : Option Char → Option String → Option String
read_char (some c) (some s) = some (String.◌∷◌ c s)
read_char _ _ = none

abbrev pub read_unary : ℕ → List Letter → Option String
read_unary n [] = some String.[]
read_unary n (stroke ∷ b) = read_unary (suc n) b
read_unary n (stop ∷ b) = read_char (char_of n) (read_unary 0 b)

read_strokes :
    (m n : ℕ) (b : List Letter)
    → read_unary n (strokes m b) ≡ read_char (char_of (m + n)) (read_unary 0 b)
read_strokes zero n b =
    let e : n ≡ 0 + n = omega arith in ap (λ x. read_char (char_of x) (read_unary 0 b)) e
read_strokes (suc m) n b =
    let e : m + suc n ≡ suc m + n = omega arith in
    read_strokes m (suc n) b ∙ ap (λ x. read_char (char_of x) (read_unary 0 b)) e

read_unary-unary : (s : String) → read_unary 0 (unary s) ≡ some s
read_unary-unary String.[] = refl
read_unary-unary (String.◌∷◌ c s) =
    let e : code c + 0 ≡ code c = omega arith in
    read_strokes (code c) 0 (unary s)
    ∙ ap (λ x. read_char (char_of x) (read_unary 0 (unary s))) e
    ∙ (rw (char_of-code c, read_unary-unary s))

-- Sixteen strokes, and the twenty-two of every tag.
abbrev pub letters : ℕ → List Letter
letters zero = []
letters (suc n) = stroke ∷ letters n

abbrev pub toy : Crypto
toy = record {
  Bytes = List Letter;
  base64url = to_text;
  of_base64url = of_text;
  encrypt = λ key iv aad p. (unary p, letters 22);
  decrypt = λ key iv aad ct tag. read_unary 0 ct;
  derive_key = λ s. [];
  key_id = λ b. "";
}

pub toy_laws : CryptoLaws toy
unfolding fits
toy_laws = record {
  reads_back = of_text-to_text;
  alphabet = to_text-only;
  tag_size = λ key iv aad p. refl;
  opens = λ key iv aad p. read_unary-unary p;
}

abbrev pub as_is : String → String
as_is s = s

abbrev pub new_key : SealKey toy
new_key = record { kid = "0123456789abcdef"; key = [] }

abbrev pub old_key : SealKey toy
old_key = record { kid = "fedcba9876543210"; key = [] }

abbrev old_ring : SealKeyring toy
old_ring = record { current = old_key; by_kid = (old_key.kid, old_key) ∷ [] }

abbrev pub new_ring : SealKeyring toy
new_ring = record {
  current = new_key;
  by_kid = (new_key.kid, new_key) ∷ (old_key.kid, old_key) ∷ [];
}

abbrev pub org : String
org = "00000000-0000-4000-8000-000000000001"

abbrev pub barn : SealBinding
barn = record { org_id = org; flock_id = "00000000-0000-4000-8000-00000000000a" }

unfoldable old_value : Option String
unfolding seal
old_value = seal toy as_is "s3" old_ring barn (letters 16)

old_held : get new_ring.by_kid old_ring.current.kid ≡ some old_ring.current
unfolding get
old_held = refl

pub new_held : get new_ring.by_kid new_ring.current.kid ≡ some new_ring.current
unfolding get
new_held = refl

abbrev text_of : Option String → String
text_of none = ""
text_of (some s) = s

old_value_run : seal toy as_is "s3" old_ring barn (letters 16) ≡ some (text_of old_value)
unfolding seal old_value aad is_uuid
old_value_run = refl

old_fresh : is_fresh toy toy_laws old_ring (letters 16) ≡ true
unfolding fits
old_fresh = refl

open_sealed-seal_example :
    (open_sealed toy as_is (text_of old_value) new_ring barn ≡ opened "s3")
    × (needs_reseal toy (text_of old_value) old_ring ≡ false)
    × (is_sealed (text_of old_value) ≡ true)
open_sealed-seal_example =
    open_sealed-seal toy toy_laws as_is old_ring new_ring barn (letters 16) "s3" (text_of old_value)
      old_fresh old_held old_value_run

-- A plaintext that was never sealed, and the credential of the old key.
abbrev rows : List SecretRow
rows =
    record { id = barn.flock_id; org_id = org; name = "barn"; value = text_of old_value }
    ∷ record {
      id = "00000000-0000-4000-8000-00000000000b";
      org_id = org;
      name = "shed";
      value = "hay";
    }
    ∷ []

pub new_fresh : (id : String) → is_fresh toy toy_laws new_ring (letters 16) ≡ true
unfolding fits
new_fresh id = refl

rows_bound : AreBound toy toy_laws as_is new_ring new_held rows
unfolding aad is_uuid
rows_bound = (refl, (refl, tt))

reseal_upstream_auth-returns_example :
    (made : ResealReport × List SecretRow) × (reseal_upstream_auth toy as_is new_ring
        (λ id. letters 16)
        none
        rows
      ≡ some made)
    × (map (reads toy as_is new_ring) made.1 ≡ map (reads toy as_is new_ring) rows)
    × (are_sealed made.1 ≡ true)
reseal_upstream_auth-returns_example =
    reseal_upstream_auth-returns toy toy_laws as_is new_ring new_held (λ id. letters 16) new_fresh
      none rows rows_bound

unfoldable first_pass : Option (ResealReport × List SecretRow)
unfolding reseal_rows
first_pass = reseal_rows toy as_is new_ring (λ id. letters 16) rows

abbrev made_of : Option (ResealReport × List SecretRow) → ResealReport × List SecretRow
made_of none = (no_report, [])
made_of (some made) = made

first_pass_run : reseal_rows toy as_is new_ring (λ id. letters 16) rows ≡ some (made_of first_pass)
unfolding reseal_rows first_pass reseal_row needs_reseal parse_envelope seal aad is_uuid old_value
    open_sealed get is_sealed exactly as_many literally
first_pass_run = refl

reseal_rows_twice_example :
    reseal_rows toy as_is new_ring (λ id. letters 16) (made_of first_pass).1
    ≡ some (quiet (made_of first_pass).0.unreadable, (made_of first_pass).1)
reseal_rows_twice_example =
    reseal_rows_twice toy toy_laws as_is new_ring new_held (λ id. letters 16) new_fresh
      (λ id. letters 16) rows (made_of first_pass) first_pass_run
