-- ===== src/Examples/Keyrings.antt =====
-- A keyring of one key.
use metamodels.Common.{String, ◌≡◌, refl, some, [], ◌∷◌, All, trim}
use metamodels.JsMap.{get}
use metamodels.Schema.Scan.{exactly, literally}
use metamodels.Schema.Sealed.{SealKey, SealKeyring}
use metamodels.Schema.Keyring.{
  loaded, failed, repeated, is_key_text, split_commas, parse_seal_key, add_previous,
  load_seal_keyring,
}
use metamodels.Schema.Keyring.Held.{load_seal_keyring-held}
use metamodels.Examples.Seals.{toy}

abbrev raw : String
raw = "AAAAAAAAAAAAAAAAAAAAAAAAAAAAAAAAAAAAAAAAAAA="

abbrev only_key : SealKey toy
only_key = record { kid = ""; key = [] }

abbrev small_ring : SealKeyring toy
small_ring = record { current = only_key; by_kid = ("", only_key) ∷ [] }

small_ring_run : load_seal_keyring toy (some raw) (some " , ") ≡ loaded small_ring
unfolding load_seal_keyring parse_seal_key is_key_text exactly literally add_previous split_commas
    trim
small_ring_run = refl

load_seal_keyring-held_example :
    (get small_ring.by_kid small_ring.current.kid ≡ some small_ring.current)
    × All (λ (e : String × SealKey toy). e.1.kid ≡ e.0) small_ring.by_kid
load_seal_keyring-held_example =
    load_seal_keyring-held toy (some raw) (some " , ") small_ring small_ring_run

-- A key that is there already is refused.
repeated_run : load_seal_keyring toy (some raw) (some raw) ≡ failed repeated
unfolding load_seal_keyring parse_seal_key is_key_text exactly literally add_previous split_commas
    trim get
repeated_run = refl
