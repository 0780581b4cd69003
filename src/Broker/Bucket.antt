-- ===== src/Broker/Bucket.antt =====
-- `Bucket` of packages/broker/src/plugins/storage/Bucket.ts. Times are in milliseconds, and the time
-- of a call is an argument. Percentages are compared after multiplying by 100.
pub mod Growth
mod Tests
use network_monorepo.Prelude.{
  ℕ, ◌+◌, ◌-◌, ◌*◌, Bool, true, false, ◌||◌, ◌&&◌, Option, none, some, List, [], ◌∷◌, leb, ltb,
  if◌then◌else◌, Text,
}

pub record Bucket : Type 0 where
  pub id : Text
  pub stream_id : Text
  pub partition : ℕ
  pub size : ℕ
  pub records : ℕ
  pub date_create : ℕ
  pub max_size : ℕ
  pub max_records : ℕ
  pub keep_alive_seconds : ℕ
  pub ttl : ℕ
  pub stored : Bool

unfoldable pub update_ttl : ℕ → Bucket → Bucket
update_ttl now b = record b { ttl = now + 1000 * b.keep_alive_seconds }

-- What the constructor validates; negative numbers are no values here.
unfoldable pub is_valid_bucket : Text → Text → ℕ → ℕ → ℕ → Bool
is_valid_bucket [] stream_id max_size max_records keep_alive_seconds = false
is_valid_bucket (x ∷ id) [] max_size max_records keep_alive_seconds = false
is_valid_bucket (x ∷ id) (y ∷ stream_id) max_size max_records keep_alive_seconds =
    ltb 0 max_size && ltb 0 max_records && ltb 0 keep_alive_seconds

-- `none` is an error of the constructor.
unfoldable pub new_bucket : Text → Text → ℕ → ℕ → ℕ → ℕ → ℕ → ℕ → ℕ → ℕ → Option Bucket
new_bucket id stream_id partition size records date_create max_size max_records keep_alive_seconds
      now =
    if is_valid_bucket id stream_id max_size max_records keep_alive_seconds
    then some (
        update_ttl now (record {
          id = id;
          stream_id = stream_id;
          partition = partition;
          size = size;
          records = records;
          date_create = date_create;
          max_size = max_size;
          max_records = max_records;
          keep_alive_seconds = keep_alive_seconds;
          ttl = now;
          stored = false;
        }))
    else none

unfoldable pub set_stored : Bucket → Bucket
set_stored b = record b { stored = true }

-- `_checkSize`, for a deduction of at most 100 percent.
unfoldable pub check_size : ℕ → Bucket → Bool
check_size percent_deduction b =
    leb (b.max_size * (100 - percent_deduction)) (b.size * 100)
    || leb (b.max_records * (100 - percent_deduction)) (b.records * 100)

-- `isAlmostFull` with its default.
unfoldable pub is_almost_full : Bucket → Bool
is_almost_full = check_size 30

unfoldable pub increment_bucket : ℕ → ℕ → Bucket → Bucket
increment_bucket now size b =
    update_ttl now (record b { size = b.size + size; records = b.records + 1; stored = false })

unfoldable pub is_alive : ℕ → Bucket → Bool
is_alive now b = leb now b.ttl
