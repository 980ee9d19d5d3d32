-- ===== src/Schema/Sealed/RoundTrip.antt =====
-- What was sealed opens again.
use metamodels.Common.{
  append, String, ◌≡◌, refl, ap, ◌∙◌, Bool, true, false, ◌&&◌, Option, none, some, eq_refl, ◌>>=◌,
  and_split,
}
use metamodels.JsMap.{get}
use metamodels.Schema.Scan.{fits, only, exactly-append, as_many-colon, literally-append}
use metamodels.Schema.Sealed.{
  is_hex, is_base64url, Envelope, parse_envelope, print_envelope, SealBinding, opened, Crypto,
  SealKeyring, aad, needs_reseal, is_sealed, envelope_of, seal, open_sealed, open_envelope,
}

-- The parts have the lengths and the alphabets that the envelope asks for.
abbrev pub is_well_formed : Envelope → Bool
is_well_formed e =
    fits is_hex 16 e.kid
    && fits is_base64url 16 e.iv
    && only is_base64url e.ct
    && fits is_base64url 22 e.tag

pub parse_envelope-print_envelope :
    (e : Envelope) → is_well_formed e ≡ true → parse_envelope (print_envelope e) ≡ some e
unfolding parse_envelope
parse_envelope-print_envelope e h =
    let (h1, tag) =
      and_split (fits is_hex 16 e.kid && fits is_base64url 16 e.iv && only is_base64url e.ct)
        (fits is_base64url 22 e.tag) h in
    let (h2, ct) =
      and_split (fits is_hex 16 e.kid && fits is_base64url 16 e.iv) (only is_base64url e.ct) h1 in
    let (kid, iv) = and_split (fits is_hex 16 e.kid) (fits is_base64url 16 e.iv) h2 in
    simp (
      literally-append "sealed:v1:" (
          append e.kid
            (append ":" (append e.iv (append ":" (append e.ct (append ":" (append e.tag ""))))))),
      exactly-append is_hex 16 e.kid
          (append ":" (append e.iv (append ":" (append e.ct (append ":" (append e.tag "")))))) kid,
      literally-append ":" (append e.iv (append ":" (append e.ct (append ":" (append e.tag ""))))),
      exactly-append is_base64url 16 e.iv (append ":" (append e.ct (append ":" (append e.tag ""))))
          iv,
      literally-append ":" (append e.ct (append ":" (append e.tag ""))),
      as_many-colon is_base64url e.ct (append e.tag "") ct refl,
      literally-append ":" (append e.tag ""),
      exactly-append is_base64url 22 e.tag "" tag,
    )

-- What `node:crypto` and `Buffer` document: base64url reads back what it writes, in its alphabet; a tag of
-- 16 bytes takes 22 characters; a cipher opens what it sealed.
pub record CryptoLaws (crypto : Crypto) : Type 0 where
  pub reads_back : (b : crypto.Bytes) → crypto.of_base64url (crypto.base64url b) ≡ b
  pub alphabet : (b : crypto.Bytes) → only is_base64url (crypto.base64url b) ≡ true
  pub tag_size :
      (key iv : crypto.Bytes) (additional plaintext : String)
      → fits is_base64url 22 (crypto.base64url (crypto.encrypt key iv additional plaintext).1)
        ≡ true
  pub opens :
      (key iv : crypto.Bytes) (additional plaintext : String)
      → crypto.decrypt key iv additional
          (crypto.encrypt key iv additional plaintext).0
          (crypto.encrypt key iv additional plaintext).1
        ≡ some plaintext

given :
    (o : Option String) (f : String → String) (v : String)
    → (o >>= λ a. some (f a)) ≡ some v
    → (a : String) × (o ≡ some a) × (v ≡ f a)
given none f v h = cc
given (some a) f v h = (a, refl, cc)

module _ (crypto : Crypto) (laws : CryptoLaws crypto) where
  -- An initialisation vector of 12 bytes, and a key id of 16 digits.
  abbrev pub is_fresh : SealKeyring crypto → crypto.Bytes → Bool
  is_fresh ring iv = fits is_hex 16 ring.current.kid && fits is_base64url 16 (crypto.base64url iv)

  sealed_parse :
      (ring : SealKeyring crypto) (iv : crypto.Bytes) (additional plaintext : String)
      → is_fresh ring iv ≡ true
      → parse_envelope (print_envelope (envelope_of crypto ring iv additional plaintext))
        ≡ some (envelope_of crypto ring iv additional plaintext)
  sealed_parse ring iv additional plaintext h =
      parse_envelope-print_envelope (envelope_of crypto ring iv additional plaintext) (
        simp (
          h,
          laws.alphabet (crypto.encrypt ring.current.key iv additional plaintext).0,
          laws.tag_size ring.current.key iv additional plaintext,
        ))

  open_envelope-sealed :
      (ring ring' : SealKeyring crypto) (iv : crypto.Bytes) (additional plaintext : String)
      → get ring'.by_kid ring.current.kid ≡ some ring.current
      → open_envelope crypto additional ring'
          (some (envelope_of crypto ring iv additional plaintext))
        ≡ opened plaintext
  open_envelope-sealed ring ring' iv additional plaintext held = simp (
    held,
    laws.reads_back iv,
    laws.reads_back (crypto.encrypt ring.current.key iv additional plaintext).0,
    laws.reads_back (crypto.encrypt ring.current.key iv additional plaintext).1,
    laws.opens ring.current.key iv additional plaintext,
  )

  -- When a value was sealed with a vector of 12 bytes under a key whose id has 16 hexadecimal digits, a keyring
  -- that holds this key under its id opens it for the same binding to the plaintext, and for the keyring that
  -- sealed it the value is an envelope that needs no reseal.
  pub open_sealed-seal :
      (lower_case : String → String) (ring ring' : SealKeyring crypto) (bind : SealBinding)
      (iv : crypto.Bytes) (plaintext value : String)
      → is_fresh ring iv ≡ true
      → get ring'.by_kid ring.current.kid ≡ some ring.current
      → seal crypto lower_case plaintext ring bind iv ≡ some value
      → (open_sealed crypto lower_case value ring' bind ≡ opened plaintext)
        × (needs_reseal crypto value ring ≡ false)
        × (is_sealed value ≡ true)
  unfolding seal open_sealed needs_reseal is_sealed
  open_sealed-seal lower_case ring ring' bind iv plaintext value fresh held run =
      let (additional, e, v) =
        given (aad crypto lower_case bind)
          (λ a. print_envelope (envelope_of crypto ring iv a plaintext)) value run in
      let parsed = ap parse_envelope v ∙ sealed_parse ring iv additional plaintext fresh in
      (
        simp (parsed, e) (open_envelope-sealed ring ring' iv additional plaintext held),
        simp (parsed, eq_refl ring.current.kid),
        simp parsed,
      )
