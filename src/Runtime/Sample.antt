-- ===== src/Runtime/Sample.antt =====
-- A runtime that meets `RuntimeLaws`: floats are millionths, the generator is a counter whose draws
-- walk through a residue class.
use Prim.Native.Nat.{◌%◌}
use Prim.Native.String.{◌++◌ as ◌<>◌}
use gacha_engine_service.Prelude.{ℕ, ◌+◌, ◌*◌, true, some, ltb, arith}
use gacha_engine_service.Runtime.{Runtime, RuntimeLaws}

abbrev pub sample : Runtime
sample = record {
  Float = ℕ;
  per_million = λ n. n;
  plus = λ a b. a + b;
  times = λ n a. n * a;
  lt = ltb;
  one = 1_000_000;
  Gen = ℕ;
  seeded = λ _. 7;
  random = λ g. ((g * 271_829 + 31_337) % 1_000_000, g + 1);
  randrange = λ n g. (g % n, g + 1);
  uuid5 = λ space name. space <> "/" <> name;
  sha256 = λ text. text;
  parse_uuid = λ text. some text;
  uuid_le = λ a b. true;
  decimal = λ _. "n";
}

pub sample-RuntimeLaws : RuntimeLaws sample
sample-RuntimeLaws = record {
  randrange_lt = λ n g h. omega arith;
  random_lt_one = λ g. ground arith;
}
