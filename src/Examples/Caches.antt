-- ===== src/Examples/Caches.antt =====
-- The configuration cache on concrete lookups.
use metamodels.Common.{ℕ, ◌+◌, ◌≤◌, ◌<◌, String, ◌≡◌, refl, Option, none, some, [], ◌∷◌, arith}
use metamodels.JsMap.{get, set}
use metamodels.DataPlane.Cache.{
  Options, Cache, ConfigCaches, cached, fill, resolve_key_by_id, invalidate_all,
}
use metamodels.DataPlane.Cache.Freshness.{
  Machine, Reach, start, step, wait, keep, cached-IsRecent, stale_after_invalidate_all,
}

abbrev small : Options
small = record { ttl_ms = 1000; max_entries = 2 }

abbrev inner : String → Option ℕ
inner key = some 7

abbrev inner_at : ℕ → String → Option ℕ
inner_at t key = some t

abbrev two_entries : Cache ℕ
two_entries =
    ("a", record { value = some 1; expires_at = 50 })
    ∷ ("b", record { value = none; expires_at = 50 })
    ∷ []

abbrev at_30 : Machine ℕ
at_30 = record { clock = 30; cache = [] }

abbrev kept : Machine ℕ
kept = record { clock = 30; cache = fill small 30 [] "a" (inner_at 20 "a") }

kept-Reach : Reach small 100 inner_at kept
kept-Reach =
    step (step start (wait (record { clock = 0; cache = [] }) 30 (omega arith)))
      (keep at_30 "a" 20 (omega arith) (omega arith))

cached-IsRecent_example :
    (read : ℕ) × (some 20 ≡ inner_at read "a") × (read ≤ 30) × (30 < read + 100 + 1000)
unfolding cached fill get set
cached-IsRecent_example =
    cached-IsRecent small 100 inner_at {m = kept} "a" {value = some 20} kept-Reach refl

abbrev caches : ConfigCaches ℕ ℕ
caches = record { key_cache = []; key_by_id_cache = two_entries; paddock_cache = [] }

stale_after_invalidate_all_example :
    ((resolve_key_by_id small 900 900 inner (invalidate_all caches) "b").0 ≡ some 7)
    × ((resolve_key_by_id small 60 100 (inner_at 1) caches "a").0 ≡ some 1)
    × ((resolve_key_by_id small 900 900 inner
          (record (invalidate_all caches) {
            key_by_id_cache = fill small 100 (invalidate_all caches).key_by_id_cache "a" (some 1);
          })
          "a").0
        ≡ some 1)
unfolding cached get
stale_after_invalidate_all_example =
    stale_after_invalidate_all small caches 60 100 900 "a" "b" (inner_at 1) inner refl (omega arith)
