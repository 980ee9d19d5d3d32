-- ===== src/Schema/Sealed.antt =====
-- packages/schema/src/sealed.ts: credentials that are stored under a key.
pub mod RoundTrip
use metamodels.Common.{
  append, ℕ, String, Bool, true, false, not, ◌&&◌, ◌||◌, Option, none, some, str_eq, leb, ◌==◌,
  if◌then◌else◌, is_some, ◌>>=◌, to_lower,
}
use metamodels.JsMap.{JsMap, get}
use metamodels.Schema.Scan.{exactly, as_many, literally}

abbrev pub is_hex : ℕ → Bool
is_hex c = (leb b'0' c && leb c b'9') || (leb b'a' c && leb c b'f')

abbrev pub is_base64url : ℕ → Bool
is_base64url c =
    (leb b'A' c && leb c b'Z')
    || (leb b'a' c && leb c b'z')
    || (leb b'0' c && leb c b'9')
    || c == b'_'
    || c == b'-'

-- The four parts of `sealed:v1:<kid>:<iv>:<ciphertext>:<tag>`.
pub record Envelope : Type 0 where
  pub kid : String
  pub iv : String
  pub ct : String
  pub tag : String

abbrev is_end : String → Bool
is_end String.[] = true
is_end (String.◌∷◌ c s) = false

-- `ENVELOPE_RE.exec`
unfoldable pub parse_envelope : String → Option Envelope
unfolding exactly as_many literally
parse_envelope s = do
  s1 ← literally "sealed:v1:" s
  (kid, s2) ← exactly is_hex 16 s1
  s3 ← literally ":" s2
  (iv, s4) ← exactly is_base64url 16 s3
  s5 ← literally ":" s4
  let (ct, s6) = as_many is_base64url s5
  s7 ← literally ":" s6
  (tag, s8) ← exactly is_base64url 22 s7
  if is_end s8 then some (record { kid = kid; iv = iv; ct = ct; tag = tag }) else none

abbrev pub print_envelope : Envelope → String
print_envelope e = append "sealed:v1:" (
    append e.kid
      (append ":" (append e.iv (append ":" (append e.ct (append ":" (append e.tag "")))))))

-- `UUID_RE.test`
abbrev is_hex_ci : ℕ → Bool
is_hex_ci c = is_hex (to_lower c)

unfoldable pub is_uuid : String → Bool
unfolding exactly literally
is_uuid s = is_some {0} (do
  (_, s1) ← exactly is_hex_ci 8 s
  s2 ← literally "-" s1
  (_, s3) ← exactly is_hex_ci 4 s2
  s4 ← literally "-" s3
  (_, s5) ← exactly is_hex_ci 4 s4
  s6 ← literally "-" s5
  (_, s7) ← exactly is_hex_ci 4 s6
  s8 ← literally "-" s7
  (_, s9) ← exactly is_hex_ci 12 s8
  if is_end s9 then some true else none)

pub record SealBinding : Type 0 where
  pub org_id : String
  pub flock_id : String

pub data UnsealReason : Type 0 where
  malformed unknown_key tampered : UnsealReason

-- What `openSealed` does: it returns, or throws an `UnsealError`, or the plain error of `aad`.
pub data Opened : Type 0 where
  opened : String → Opened
  unsealed : UnsealReason → Opened
  bad_binding : Opened

-- The parts of `node:crypto` and of `Buffer` that sealing stands on. `encrypt` gives the ciphertext and the tag
-- of AES-256-GCM, `decrypt` gives nothing where the tag does not fit.
pub record Crypto : Type 1 where
  pub Bytes : Type 0
  pub base64url : Bytes → String
  pub of_base64url : String → Bytes
  pub encrypt : (key iv : Bytes) (aad plaintext : String) → Bytes × Bytes
  pub decrypt : (key iv : Bytes) (aad : String) (ct tag : Bytes) → Option String
  pub derive_key : String → Bytes
  pub key_id : Bytes → String

unfoldable pub is_sealed : String → Bool
unfolding parse_envelope
is_sealed value = is_some (parse_envelope value)

module _ (crypto : Crypto) where
  pub record SealKey : Type 0 where
    pub kid : String
    pub key : crypto.Bytes

  pub record SealKeyring : Type 0 where
    pub current : SealKey
    pub by_kid : JsMap SealKey

  abbrev pub is_current : SealKeyring → Option Envelope → Bool
  is_current ring none = false
  is_current ring (some e) = str_eq e.kid ring.current.kid

  -- `needsReseal`
  unfoldable pub needs_reseal : String → SealKeyring → Bool
  unfolding parse_envelope
  needs_reseal value ring = not (is_current ring (parse_envelope value))

  abbrev pub envelope_of : SealKeyring → crypto.Bytes → String → String → Envelope
  envelope_of ring iv additional plaintext =
      let (ct, tag) = crypto.encrypt ring.current.key iv additional plaintext in
      record {
        kid = ring.current.kid;
        iv = crypto.base64url iv;
        ct = crypto.base64url ct;
        tag = crypto.base64url tag;
      }

  abbrev pub decrypted : Option String → Opened
  decrypted none = unsealed tampered
  decrypted (some plaintext) = opened plaintext

  abbrev pub open_with : String → Envelope → Option SealKey → Opened
  open_with additional e none = unsealed unknown_key
  open_with additional e (some k) = decrypted (
      crypto.decrypt k.key (crypto.of_base64url e.iv) additional (crypto.of_base64url e.ct)
        (crypto.of_base64url e.tag))

  abbrev pub open_envelope : String → SealKeyring → Option Envelope → Opened
  open_envelope additional ring none = unsealed malformed
  open_envelope additional ring (some e) = open_with additional e (get ring.by_kid e.kid)

  abbrev pub open_bound : SealKeyring → Option Envelope → Option String → Opened
  open_bound ring parsed none = bad_binding
  open_bound ring parsed (some additional) = open_envelope additional ring parsed

-- `lower_case` is `toLowerCase`.
module _ (crypto : Crypto) (lower_case : String → String) where
  unfoldable pub aad : SealBinding → Option String
  unfolding is_uuid
  aad bind =
      if is_uuid bind.org_id && is_uuid bind.flock_id
      then some (
          append "flock:" (append (lower_case bind.org_id) (append ":" (lower_case bind.flock_id))))
      else none

  -- `seal`; `iv` is random. A binding that is none throws.
  unfoldable pub seal : String → SealKeyring crypto → SealBinding → crypto.Bytes → Option String
  unfolding aad
  seal plaintext ring bind iv = do
    additional ← aad bind
    some (print_envelope (envelope_of crypto ring iv additional plaintext))

  -- `openSealed`
  unfoldable pub open_sealed : String → SealKeyring crypto → SealBinding → Opened
  unfolding aad parse_envelope
  open_sealed envelope ring bind = open_bound crypto ring (parse_envelope envelope) (aad bind)
