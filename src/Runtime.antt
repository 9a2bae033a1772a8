-- ===== src/Runtime.antt =====
-- What engine.py and main.py use of Python's standard library, as parameters of the model:
-- floats (`int / 1_000_000`, `+`, `int * float`, `<`), `random.Random`, `uuid.uuid5` and the
-- decimal text of an int. `RuntimeLaws` states what their documentation says and the code relies on.
pub mod Sample
use gacha_engine_service.Prelude.{Option, ℕ, ◌<◌, ◌≡◌, String, Bool, true}

pub record Runtime : Type 1 where
  pub Float : Type 0
  -- `n / 1_000_000`
  pub per_million : ℕ → Float
  pub plus : Float → Float → Float
  -- an int times a float
  pub times : ℕ → Float → Float
  pub lt : Float → Float → Bool
  pub one : Float
  -- `random.Random`
  pub Gen : Type 0
  pub seeded : String → Gen
  pub random : Gen → Float × Gen
  pub randrange : ℕ → Gen → ℕ × Gen
  -- `str(uuid.uuid5(namespace, name))`
  pub uuid5 : String → String → String
  -- `hashlib.sha256(text.encode("utf-8")).hexdigest()`
  pub sha256 : String → String
  -- `UUID(text)`, as its canonical text; `none` is the `ValueError`
  pub parse_uuid : String → Option String
  -- `a <= b` on uuids, as the database orders them
  pub uuid_le : String → String → Bool
  -- `str(n)`
  pub decimal : ℕ → String

-- `randrange(n)` is below `n`; `random()` is below 1.0; an integer is below no lesser one.
pub record RuntimeLaws (R : Runtime) : Type 0 where
  pub randrange_lt : (n : ℕ) (g : R.Gen) → 0 < n → (R.randrange n g).0 < n
  pub random_lt_one : (g : R.Gen) → R.lt (R.random g).0 R.one ≡ true
