-- ===== src/Broker/Bucket/Tests.antt =====
-- A small bucket.
use network_monorepo.Prelude.{◌≡◌, true, false, [], ◌∷◌, arith, codes}
use network_monorepo.Broker.Bucket.{Bucket, is_almost_full}
use network_monorepo.Broker.Bucket.Growth.{increment_all, is_almost_full-increment_all}

abbrev bucket : Bucket
bucket = record {
  id = codes "b";
  stream_id = codes "s";
  partition = 0;
  size = 0;
  records = 5;
  date_create = 0;
  max_size = 1000;
  max_records = 10;
  keep_alive_seconds = 60;
  ttl = 0;
  stored = false;
}

is_almost_full-increment_all_example :
    is_almost_full (increment_all ((1, 10) ∷ (2, 20) ∷ []) bucket) ≡ true
is_almost_full-increment_all_example =
    is_almost_full-increment_all ((1, 10) ∷ (2, 20) ∷ []) bucket (omega arith)
