-- ===== src/Catalog.antt =====
-- gacha_engine_service/catalog.py: the static catalog.
use gacha_engine_service.Prelude.{none, some, List, [], ◌∷◌}
use gacha_engine_service.Schemas.{GachaItem, Banner, character, weapon, limited_character, standard}

abbrev char_luoxian : GachaItem
char_luoxian = record {
  id = "char-luoxian";
  name = "洛弦";
  subtitle = "归潮的观测者";
  rarity = 5;
  item_type = character;
  element = "导电";
  role = "主 C";
  faction = "白塔档案局";
  accent = "#f6c453";
  quote = "让风暴归档，让星海回答。";
}

abbrev char_xingjian : GachaItem
char_xingjian = record {
  id = "char-xingjian";
  name = "星见遥";
  subtitle = "夜航列车长";
  rarity = 5;
  item_type = character;
  element = "冷凝";
  role = "速切";
  faction = "环城铁道";
  accent = "#79d7ff";
  quote = "下一站，越过今晚。";
}

abbrev weapon_aurora : GachaItem
weapon_aurora = record {
  id = "weapon-aurora";
  name = "极昼回声";
  subtitle = "五星音感仪";
  rarity = 5;
  item_type = weapon;
  element = "共鸣";
  role = "增幅";
  faction = "古物";
  accent = "#f8e38f";
  quote = "黎明被封存在晶体里。";
}

abbrev char_qinglan : GachaItem
char_qinglan = record {
  id = "char-qinglan";
  name = "青岚";
  subtitle = "云端巡礼人";
  rarity = 4;
  item_type = character;
  element = "气动";
  role = "辅助";
  faction = "九枝会";
  accent = "#64dca8";
  quote = "顺风时，答案会自己走近。";
}

abbrev char_miyue : GachaItem
char_miyue = record {
  id = "char-miyue";
  name = "弥月";
  subtitle = "月相修复师";
  rarity = 4;
  item_type = character;
  element = "衍射";
  role = "治疗";
  faction = "月台医院";
  accent = "#d8b4fe";
  quote = "别怕，我会把裂缝补好。";
}

abbrev weapon_bell : GachaItem
weapon_bell = record {
  id = "weapon-bell";
  name = "白昼铃";
  subtitle = "四星音感仪";
  rarity = 4;
  item_type = weapon;
  element = "共鸣";
  role = "充能";
  faction = "工坊";
  accent = "#f6d58f";
  quote = "铃声轻响，伤口便睡去。";
}

abbrev weapon_cinder : GachaItem
weapon_cinder = record {
  id = "weapon-cinder";
  name = "余温";
  subtitle = "三星迅刃";
  rarity = 3;
  item_type = weapon;
  element = "斩击";
  role = "训练";
  faction = "制式";
  accent = "#9aa3b2";
  quote = "仍有一点热度。";
}

abbrev weapon_tide : GachaItem
weapon_tide = record {
  id = "weapon-tide";
  name = "潮汐笔记";
  subtitle = "三星音感仪";
  rarity = 3;
  item_type = weapon;
  element = "共鸣";
  role = "训练";
  faction = "制式";
  accent = "#7fb5cf";
  quote = "初学者的第一页。";
}

abbrev pub gacha_items : List GachaItem
gacha_items =
    char_luoxian ∷ char_xingjian ∷ weapon_aurora ∷ char_qinglan ∷ char_miyue ∷ weapon_bell
    ∷ weapon_cinder ∷ weapon_tide ∷ []

abbrev pub limited_character_001 : Banner
limited_character_001 = record {
  id = "limited-character-001";
  name = "归潮观测";
  short_name = "限定角色";
  banner_type = limited_character;
  description = "洛弦概率提升。五星角色 50% 命中 UP，未命中后下次五星必定为 UP。";
  featured_five_id = some "char-luoxian";
  featured_four_ids = "char-qinglan" ∷ "char-miyue" ∷ "weapon-bell" ∷ [];
  item_pool =
      "char-luoxian" ∷ "char-xingjian" ∷ "weapon-aurora" ∷ "char-qinglan" ∷ "char-miyue"
      ∷ "weapon-bell" ∷ "weapon-cinder" ∷ "weapon-tide" ∷ [];
  theme = record { primary = "#f6c453"; secondary = "#18c7a3"; glow = "rgba(246, 196, 83, 0.28)" };
}

abbrev pub standard_001 : Banner
standard_001 = record {
  id = "standard-001";
  name = "群星回声";
  short_name = "常驻唤取";
  banner_type = standard;
  description = "常驻角色与武器混合池。五星无 UP 机制，适合测试完整概率。";
  featured_five_id = none;
  featured_four_ids = "char-qinglan" ∷ "char-miyue" ∷ "weapon-bell" ∷ [];
  item_pool =
      "char-xingjian" ∷ "weapon-aurora" ∷ "char-qinglan" ∷ "char-miyue" ∷ "weapon-bell"
      ∷ "weapon-cinder" ∷ "weapon-tide" ∷ [];
  theme = record { primary = "#79d7ff"; secondary = "#ff8f70"; glow = "rgba(121, 215, 255, 0.22)" };
}

abbrev pub banners : List Banner
banners = limited_character_001 ∷ standard_001 ∷ []
