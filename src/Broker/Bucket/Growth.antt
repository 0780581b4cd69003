-- ===== src/Broker/Bucket/Growth.antt =====
-- Buckets over a sequence of increments.
use network_monorepo.Prelude.{ℕ, ◌+◌, ◌*◌, ◌≤◌, ◌≡◌, refl, true, List, [], ◌∷◌, arith, length}
use network_monorepo.Broker.Bucket.{
  Bucket, update_ttl, check_size, is_almost_full, increment_bucket,
}

-- The times and the sizes of some messages.
unfoldable pub increment_all : List (ℕ × ℕ) → Bucket → Bucket
increment_all [] b = b
increment_all ((now, size) ∷ messages) b = increment_all messages (increment_bucket now size b)

records-increment_all :
    (messages : List (ℕ × ℕ)) (b : Bucket)
    → (increment_all messages b).records ≡ b.records + length messages
unfolding increment_all increment_bucket update_ttl
records-increment_all [] b = omega arith
records-increment_all ((now, size) ∷ messages) b =
    omega (arith, records-increment_all messages (increment_bucket now size b))

max-increment_all :
    (messages : List (ℕ × ℕ)) (b : Bucket) → (increment_all messages b).max_records ≡ b.max_records
unfolding increment_all increment_bucket update_ttl
max-increment_all [] b = refl
max-increment_all ((now, size) ∷ messages) b =
    max-increment_all messages (increment_bucket now size b)

-- Whatever their sizes and times, once seven tenths of the maximal number of records have been
-- counted the bucket is almost full.
pub is_almost_full-increment_all :
    (messages : List (ℕ × ℕ)) (b : Bucket)
    → b.max_records * 70 ≤ (b.records + length messages) * 100
    → is_almost_full (increment_all messages b) ≡ true
unfolding is_almost_full check_size
is_almost_full-increment_all messages b h =
    ground (arith, records-increment_all messages b, max-increment_all messages b)
