-- ===== src/Repository/Cache.antt =====
-- `CachedCatalogProvider`: the cache, and its calls as steps that may interleave while a load waits.
use gacha_engine_service.Prelude.{
  ℕ, ◌+◌, ◌*◌, String, Bool, false, Option, none, some, ltb, if◌then◌else◌, str_eq,
}
use gacha_engine_service.Prelude.Result.{ok, raise}
use gacha_engine_service.CatalogConfig.{CatalogSnapshot}
use gacha_engine_service.Repository.Values.{Load}

-- Times are microseconds; `datetime.min` is 0.
pub record CachedCatalogProvider : Type 0 where
  pub ttl_seconds : ℕ
  pub snapshot : Option CatalogSnapshot
  pub expires_at : ℕ

unfoldable pub empty_provider : ℕ → CachedCatalogProvider
empty_provider ttl_seconds = record { ttl_seconds = ttl_seconds; snapshot = none; expires_at = 0 }

-- The first part of `get_snapshot`, up to its `await`: the cached snapshot that it returns.
unfoldable pub cached_snapshot : CachedCatalogProvider → ℕ → Option CatalogSnapshot
cached_snapshot p now = elim p.snapshot [
  | none ↦ none
  | some s ↦ if ltb now p.expires_at then some s else none
]

-- The part after the `await`, with the reading of the clock from before it.
unfoldable pub store_snapshot : CachedCatalogProvider → ℕ → CatalogSnapshot → CachedCatalogProvider
store_snapshot p now snapshot = record p {
  snapshot = some snapshot;
  expires_at = now + p.ttl_seconds * 1_000_000;
}

-- `get_snapshot` with nothing in between; `loaded` is what the repository's load gives.
unfoldable pub get_snapshot :
    CachedCatalogProvider → ℕ → Load CatalogSnapshot → Load CatalogSnapshot × CachedCatalogProvider
unfolding cached_snapshot store_snapshot
get_snapshot p now loaded = elim (cached_snapshot p now) [
  | some s ↦ (ok s, p)
  | none ↦ elim loaded [ raise e ↦ (raise e, p) | ok s ↦ (ok s, store_snapshot p now s) ]
]

-- `self._snapshot.release_id == release_id`
abbrev is_release : CatalogSnapshot → String → Bool
is_release s release_id = elim s.release_id [ none ↦ false | some id ↦ str_eq id release_id ]

unfoldable pub get_release_snapshot :
    CachedCatalogProvider → String → Load CatalogSnapshot → Load CatalogSnapshot
get_release_snapshot p release_id loaded = elim p.snapshot [
  | none ↦ loaded
  | some s ↦ if is_release s release_id then ok s else loaded
]
