-- ===== src/Schemas.antt =====
-- gacha_engine_service/schemas.py: the records that the engine, the store and the API share.
-- A UUID and a timestamp's zone are not structured: a UUID is its canonical text, a timestamp the
-- number of microseconds since the epoch in UTC. An int that the schema or the database keeps
-- non-negative is an ℕ.
pub mod Equality
use gacha_engine_service.Prelude.{ℕ, String, Bool, false, Option, none, List}

pub data GachaItemType : Type 0 where
  character weapon : GachaItemType

pub data BannerType : Type 0 where
  limited_character standard : BannerType

pub record GachaItem : Type 0 where
  pub id : String
  pub name : String
  pub subtitle : String
  pub rarity : ℕ
  pub item_type : GachaItemType
  pub element : String
  pub role : String
  pub faction : String
  pub accent : String
  pub quote : String

pub record BannerTheme : Type 0 where
  pub primary : String
  pub secondary : String
  pub glow : String

pub record Banner : Type 0 where
  pub id : String
  pub name : String
  pub short_name : String
  pub banner_type : BannerType
  pub description : String
  pub featured_five_id : Option String
  pub featured_four_ids : List String
  pub item_pool : List String
  pub theme : BannerTheme

pub record PityState : Type 0 where
  pub since_five : ℕ
  pub since_four : ℕ
  pub guaranteed_featured_five : Bool

-- `PitySnapshot(PityState)`: `s.since_five` is `s.state.since_five`.
pub record PitySnapshot : Type 0 where
  pub state : PityState
  pub open state use *
  pub version : ℕ

unfoldable pub without_version : PitySnapshot → PityState
without_version s = record {
  since_five = s.since_five;
  since_four = s.since_four;
  guaranteed_featured_five = s.guaranteed_featured_five;
}

pub record PullRecord : Type 0 where
  pub id : String
  pub index : ℕ
  pub item_id : String
  pub item_name : String
  pub item_type : GachaItemType
  pub rarity : ℕ
  pub banner_id : String
  pub banner_name : String
  pub pity_at_five : ℕ
  pub pity_at_four : ℕ
  pub is_featured : Bool

pub record PullAuditMetadata : Type 0 where
  pub schema_version : ℕ
  pub release_id : Option String
  pub release_number : Option ℕ
  pub release_snapshot_sha256 : Option String
  pub banner_version_id : Option String
  pub banner_config_sha256 : String
  pub rng_algorithm_version : String
  pub engine_version : String
  pub engine_build_sha : String

pub record PullResponse : Type 0 where
  pub event_id : String
  pub accepted_at : Option ℕ
  pub pity_group_id : Option String
  pub banner_version_id : Option String
  pub seed : String
  pub records : List PullRecord
  pub previous_pity : PitySnapshot
  pub next_pity : PitySnapshot
  pub state_version : ℕ
  pub audit : Option PullAuditMetadata

pub record PullCompletedEvent : Type 0 where
  pub event_id : String
  pub accepted_at : Option ℕ
  pub user_id : String
  pub banner_id : String
  pub pity_group_id : Option String
  pub banner_version_id : Option String
  pub seed : String
  pub records : List PullRecord
  pub previous_pity : PitySnapshot
  pub next_pity : PitySnapshot
  pub state_version : ℕ
  pub audit : Option PullAuditMetadata
