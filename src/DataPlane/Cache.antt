-- ===== src/DataPlane/Cache.antt =====
-- apps/data-plane/src/config/caching-config-store.ts: the cache in front of the configuration, and
-- config-invalidation-subscriber.ts, which flushes it.
pub mod Bound
pub mod Freshness
use metamodels.Common.{
  ℕ, ◌+◌, String, Bool, not, ◌&&◌, Option, none, some, [], ltb, leb, if◌then◌else◌,
}
use metamodels.JsMap.{JsMap, get, set, delete, has, size, first_key}

-- A hit or a negative result, `null`, and when it stops being fresh.
pub record Entry (V : Type 0) : Type 0 where
  pub value : Option V
  pub expires_at : ℕ

abbrev pub Cache : Type 0 → Type 0
Cache V = JsMap (Entry V)

-- The constructor's options.
pub record Options : Type 0 where
  pub ttl_ms : ℕ
  pub max_entries : ℕ

abbrev pub default_options : Options
default_options = record { ttl_ms = 30000; max_entries = 10000 }

module _ {V : Type 0} where
  abbrev pub evicted : Cache V → Option String → Cache V
  evicted cache none = cache
  evicted cache (some oldest) = delete cache oldest

  unfoldable pub set_bounded : ℕ → Cache V → String → Entry V → Cache V
  set_bounded max cache key entry =
      if not (has cache key) && leb max (size cache)
      then set (evicted cache (first_key cache)) key entry
      else set cache key entry

  abbrev pub fresh_value : ℕ → Option (Entry V) → Option (Option V)
  fresh_value now none = none
  fresh_value now (some e) = if ltb now e.expires_at then some e.value else none

  -- The part of a lookup before its `await`: the cached answer, if it is fresh.
  unfoldable pub cached : ℕ → Cache V → String → Option (Option V)
  cached now cache key = fresh_value now (get cache key)

  -- The part after it: the answer of the inner store is kept from `now` on.
  unfoldable pub fill : Options → ℕ → Cache V → String → Option V → Cache V
  unfolding set_bounded
  fill opts now cache key value =
      set_bounded opts.max_entries cache key
        (record { value = value; expires_at = now + opts.ttl_ms })

  abbrev pub resolved :
      Options → ℕ → (String → Option V) → Cache V → String → Option (Option V) → Option V × Cache V
  resolved opts answered inner cache key (some value) = (value, cache)
  resolved opts answered inner cache key none =
      (inner key, fill opts answered cache key (inner key))

  -- A whole lookup with nothing in between: `asked` is when the clock is first read, `answered` when
  -- the inner store, which answers `inner`, has been asked.
  unfoldable pub resolve :
      Options → ℕ → ℕ → (String → Option V) → Cache V → String → Option V × Cache V
  resolve opts asked answered inner cache key =
      resolved opts answered inner cache key (cached asked cache key)

-- The three caches of a `CachingConfigStore`, over the key and the paddock types.
pub record ConfigCaches (K P : Type 0) : Type 0 where
  pub key_cache : Cache K
  pub key_by_id_cache : Cache K
  pub paddock_cache : Cache P

module _ {K P : Type 0} where
  unfoldable pub invalidate_all : ConfigCaches K P → ConfigCaches K P
  invalidate_all c = record { key_cache = []; key_by_id_cache = []; paddock_cache = [] }

  unfoldable pub resolve_key_by_hash :
      Options
      → ℕ
      → ℕ
      → (String → Option K)
      → ConfigCaches K P
      → String
      → Option K × ConfigCaches K P
  unfolding resolve
  resolve_key_by_hash opts asked answered inner c hash =
      let (value, cache) = resolve opts asked answered inner c.key_cache hash in
      (value, record c { key_cache = cache })

  unfoldable pub resolve_key_by_id :
      Options
      → ℕ
      → ℕ
      → (String → Option K)
      → ConfigCaches K P
      → String
      → Option K × ConfigCaches K P
  unfolding resolve
  resolve_key_by_id opts asked answered inner c id =
      let (value, cache) = resolve opts asked answered inner c.key_by_id_cache id in
      (value, record c { key_by_id_cache = cache })

  unfoldable pub get_paddock_by_slug :
      Options
      → ℕ
      → ℕ
      → (String → Option P)
      → ConfigCaches K P
      → String
      → Option P × ConfigCaches K P
  unfolding resolve
  get_paddock_by_slug opts asked answered inner c slug =
      let (value, cache) = resolve opts asked answered inner c.paddock_cache slug in
      (value, record c { paddock_cache = cache })

  -- `handleInvalidationMessage`: a message that does not decode is ignored.
  unfoldable pub handle_invalidation_message : Bool → ConfigCaches K P → ConfigCaches K P
  unfolding invalidate_all
  handle_invalidation_message decodes c = if decodes then invalidate_all c else c
