-- ===== src/Schema/Keyring.antt =====
-- packages/schema/src/sealed.ts: the keys of the environment.
pub mod Held
use metamodels.Common.{
  ℕ, String, Bool, true, not, ◌&&◌, ◌||◌, Option, none, some, List, [], ◌∷◌, map, leb, ◌==◌,
  if◌then◌else◌, or_else, is_some, ◌>>=◌, filter, is_empty, trim,
}
use Prim.Native.Char.{Char, code}
use metamodels.JsMap.{JsMap, set, has}
use metamodels.Schema.Scan.{exactly, literally}
use metamodels.Schema.Sealed.{Crypto, SealKey, SealKeyring}

abbrev is_base64 : ℕ → Bool
is_base64 c =
    (leb b'A' c && leb c b'Z')
    || (leb b'a' c && leb c b'z')
    || (leb b'0' c && leb c b'9')
    || c == b'+'
    || c == b'/'

-- `KEY_RE.test`
unfoldable pub is_key_text : String → Bool
unfolding exactly literally
is_key_text s = is_some {0} (do
  (_, s1) ← exactly is_base64 43 s
  s2 ← literally "=" s1
  if is_empty s2 then some true else none)

abbrev push : Char → List String → List String
push c [] = String.◌∷◌ c String.[] ∷ []
push c (x ∷ xs) = String.◌∷◌ c x ∷ xs

-- `s.split(',')`
unfoldable pub split_commas : String → List String
split_commas String.[] = "" ∷ []
split_commas (String.◌∷◌ c s) =
    let rest = split_commas s in if code c == b',' then "" ∷ rest else push c rest

pub data KeyringError : Type 0 where
  missing malformed_key repeated : KeyringError

pub data Loaded {ℓ} (A : Type ℓ) : Type ℓ where
  loaded : A → Loaded A
  failed : KeyringError → Loaded A

module _ (crypto : Crypto) where
  -- `parseSealKey`; `derive_key` decodes and derives, `key_id` names the derived key.
  unfoldable pub parse_seal_key : String → Loaded (SealKey crypto)
  unfolding is_key_text
  parse_seal_key b64 =
      if not (is_key_text b64)
      then failed malformed_key
      else loaded
          (record { kid = crypto.key_id (crypto.derive_key b64); key = crypto.derive_key b64 })

  abbrev pub add_parsed :
      (JsMap (SealKey crypto) → Loaded (JsMap (SealKey crypto)))
      → JsMap (SealKey crypto)
      → Loaded (SealKey crypto)
      → Loaded (JsMap (SealKey crypto))
  add_parsed rest by_kid (failed e) = failed e
  add_parsed rest by_kid (loaded k) =
      if has by_kid k.kid then failed repeated else rest (set by_kid k.kid k)

  unfoldable pub add_previous :
      List String → JsMap (SealKey crypto) → Loaded (JsMap (SealKey crypto))
  unfolding parse_seal_key
  add_previous [] by_kid = loaded by_kid
  add_previous (p ∷ previous) by_kid = add_parsed (add_previous previous) by_kid (parse_seal_key p)

  abbrev pub ring_of :
      SealKey crypto → Loaded (JsMap (SealKey crypto)) → Loaded (SealKeyring crypto)
  ring_of current (failed e) = failed e
  ring_of current (loaded by_kid) = loaded (record { current = current; by_kid = by_kid })

  -- The previous keys, trimmed, without the empty ones.
  abbrev pub previous_keys : Option String → List String
  previous_keys text = filter (λ s. not (is_empty s)) (map trim (split_commas (or_else text "")))

  abbrev pub with_current : Option String → Loaded (SealKey crypto) → Loaded (SealKeyring crypto)
  with_current previous (failed e) = failed e
  with_current previous (loaded current) =
      ring_of current (add_previous (previous_keys previous) ((current.kid, current) ∷ []))

  abbrev pub from_raw : Option String → Option String → Loaded (SealKeyring crypto)
  from_raw previous none = failed missing
  from_raw previous (some raw) =
      if is_empty raw then failed missing else with_current previous (parse_seal_key raw)

  -- `loadSealKeyring`, of the two variables of the environment.
  unfoldable pub load_seal_keyring : Option String → Option String → Loaded (SealKeyring crypto)
  unfolding parse_seal_key add_previous split_commas trim
  load_seal_keyring key previous = from_raw previous key
