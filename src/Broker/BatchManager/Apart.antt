-- ===== src/Broker/BatchManager/Apart.antt =====
-- The ids of the batches of a manager (BatchManager.ts).
use network_monorepo.Prelude.{
  ℕ, ◌≡◌, refl, subst, true, false, inl, inr, Option, none, some, List, [], ◌∷◌, map, arith, Text,
  same, Dict, lookup, insert, erase, lookup-insert, has, keys, IsDistinct, erase-IsDistinct,
  insert-IsDistinct, All, Bool-cases, Option-cases,
}
use network_monorepo.Broker.Batch.{Batch, Limits, new_batch, lock, schedule_insert, push, is_full}
use network_monorepo.Broker.BatchManager.{
  BatchManager, move_full_batch, lock_batch, lock_if_full, push_to, open_batch, store,
}

module _ {M : Type 0} where
  abbrev pub ids : Dict (Batch M) → List Text
  ids = map (λ e. e.1.id)

  -- No bucket has two open batches, no two open batches have the same id, and none has the id of a
  -- pending one.
  pub record HasOwnIds (mgr : BatchManager M) : Type 0 where
    pub one_each : IsDistinct (keys mgr.batches)
    pub own_ids : IsDistinct (ids mgr.batches)
    pub not_pending : All (λ e. lookup e.1.id mgr.pending_batches ≡ none) mgr.batches

  has-ids-erase :
      (i k : Text) (bs : Dict (Batch M)) → has i (ids bs) ≡ false → has i (ids (erase k bs)) ≡ false
  unfolding has erase
  has-ids-erase i k [] h = refl
  has-ids-erase i k ((j, c) ∷ bs) h = ground (arith, has-ids-erase i k bs)

  erase-own_ids :
      (k : Text) (bs : Dict (Batch M)) → IsDistinct (ids bs) → IsDistinct (ids (erase k bs))
  unfolding erase
  erase-own_ids k [] d = tt
  erase-own_ids k ((j, c) ∷ bs) d = ground (arith, erase-own_ids k bs, has-ids-erase c.id k bs)

  found_id :
      (k : Text) (b : Batch M) (bs : Dict (Batch M))
      → lookup k bs ≡ some b
      → has b.id (ids bs) ≡ true
  unfolding has lookup
  found_id k b [] h = absurd (ground arith)
  found_id k b ((j, c) ∷ bs) h = elim (Bool-cases (same j k)) [
    | inl e ↦ let is_c : c ≡ b = ground arith in ground arith
    | inr e ↦ let ih = found_id k b bs (ground arith) in ground arith
  ]

  erased_id :
      (k : Text) (b : Batch M) (bs : Dict (Batch M))
      → lookup k bs ≡ some b
      → IsDistinct (ids bs)
      → has b.id (ids (erase k bs)) ≡ false
  unfolding has erase lookup
  erased_id k b [] h d = ground arith
  erased_id k b ((j, c) ∷ bs) h d = elim (Bool-cases (same j k)) [
    | inl e ↦
        let is_c : c ≡ b = ground arith in
        rw e (subst (λ x. has x.id (ids (erase k bs)) ≡ false) is_c (has-ids-erase c.id k bs d.0))
    | inr e ↦
        let there : lookup k bs ≡ some b = ground arith in
        let own = found_id k b bs there in rw e (ground (arith, erased_id k b bs there d.1))
  ]

  All-erase :
      (k : Text) (bs pending : Dict (Batch M))
      → All (λ e. lookup e.1.id pending ≡ none) bs
      → All (λ e. lookup e.1.id pending ≡ none) (erase k bs)
  unfolding erase
  All-erase k [] pending a = tt
  All-erase k ((j, c) ∷ bs) pending a = ground (arith, All-erase k bs pending)

  All-insert_pending :
      (i : Text) (b : Batch M) (bs pending : Dict (Batch M))
      → has i (ids bs) ≡ false
      → All (λ e. lookup e.1.id pending ≡ none) bs
      → All (λ e. lookup e.1.id (insert i b pending) ≡ none) bs
  unfolding has
  All-insert_pending i b [] pending h a = tt
  All-insert_pending i b ((j, c) ∷ bs) pending h a =
      ground (arith, All-insert_pending i b bs pending, lookup-insert c.id i b pending)

  lock_batch-HasOwnIds :
      (k : Text) (b : Batch M) (mgr : BatchManager M)
      → lookup k mgr.batches ≡ some b
      → HasOwnIds mgr
      → HasOwnIds (lock_batch k b mgr)
  unfolding lock_batch move_full_batch lock
  lock_batch-HasOwnIds k b mgr h w = record {
    one_each = erase-IsDistinct k mgr.batches w.one_each;
    own_ids = erase-own_ids k mgr.batches w.own_ids;
    not_pending =
        All-insert_pending b.id (schedule_insert (lock b)) (erase k mgr.batches) mgr.pending_batches
          (erased_id k b mgr.batches h w.own_ids)
          (All-erase k mgr.batches mgr.pending_batches w.not_pending);
  }

  lock_if_full-HasOwnIds :
      (k : Text) (mgr : BatchManager M) → HasOwnIds mgr → HasOwnIds (lock_if_full k mgr)
  unfolding lock_if_full
  lock_if_full-HasOwnIds k mgr w = elim (Option-cases (lookup k mgr.batches)) [
    | inl e ↦ rw (e, lock_if_full) w
    | inr (b, e) ↦ elim (Bool-cases (is_full b)) [
      | inl full ↦ rw (e, lock_if_full, full) (lock_batch-HasOwnIds k b mgr e w)
      | inr room ↦ rw (e, lock_if_full, room) w
    ]
  ]

  has-ids-insert :
      (i k : Text) (b : Batch M) (bs : Dict (Batch M))
      → has i (ids bs) ≡ false
      → same i b.id ≡ false
      → has i (ids (insert k b bs)) ≡ false
  unfolding has insert
  has-ids-insert i k b [] h n = ground arith
  has-ids-insert i k b ((j, c) ∷ bs) h n = ground (arith, has-ids-insert i k b bs)

  insert-own_ids :
      (k : Text) (b : Batch M) (bs : Dict (Batch M))
      → has b.id (ids bs) ≡ false
      → IsDistinct (ids bs)
      → IsDistinct (ids (insert k b bs))
  unfolding insert has
  insert-own_ids k b [] h d = (refl, tt)
  insert-own_ids k b ((j, c) ∷ bs) h d =
      ground (arith, insert-own_ids k b bs, has-ids-insert c.id k b bs)

  ids-insert :
      (k : Text) (b c : Batch M) (bs : Dict (Batch M))
      → lookup k bs ≡ some c
      → b.id ≡ c.id
      → ids (insert k b bs) ≡ ids bs
  unfolding insert lookup
  ids-insert k b c [] h e = absurd (ground arith)
  ids-insert k b c ((j, x) ∷ bs) h e = elim (Bool-cases (same j k)) [
    | inl f ↦ let is_x : x ≡ c = ground arith in ground arith
    | inr f ↦ let ih = ids-insert k b c bs (ground arith) e in ground arith
  ]

  All-insert :
      (k : Text) (b : Batch M) (bs pending : Dict (Batch M))
      → lookup b.id pending ≡ none
      → All (λ e. lookup e.1.id pending ≡ none) bs
      → All (λ e. lookup e.1.id pending ≡ none) (insert k b bs)
  unfolding insert
  All-insert k b [] pending h a = (h, tt)
  All-insert k b ((j, c) ∷ bs) pending h a = ground (arith, All-insert k b bs pending)

  -- An id that no batch of the manager has.
  abbrev pub IsUnused : Text → BatchManager M → Type 0
  IsUnused i mgr = (has i (ids mgr.batches) ≡ false) × (lookup i mgr.pending_batches ≡ none)

  lock_if_full-IsUnused :
      (i k : Text) (mgr : BatchManager M) → IsUnused i mgr → IsUnused i (lock_if_full k mgr)
  unfolding lock_if_full lock_batch move_full_batch lock
  lock_if_full-IsUnused i k mgr u = elim (Option-cases (lookup k mgr.batches)) [
    | inl e ↦ rw (e, lock_if_full) u
    | inr (b, e) ↦ elim (Bool-cases (is_full b)) [
      | inl full ↦
          let own = found_id k b mgr.batches e in
          rw (e, lock_if_full, full)
            (
              has-ids-erase i k mgr.batches u.0,
              ground (arith, lookup-insert i b.id (schedule_insert (lock b)) mgr.pending_batches),
            )
      | inr room ↦ rw (e, lock_if_full, room) u
    ]
  ]

  new_batch-id :
      (fresh k : Text) (limits : Limits) (b : Batch M)
      → new_batch fresh k limits ≡ some b
      → b.id ≡ fresh
  unfolding new_batch
  new_batch-id fresh k limits b h = ground arith

  lookup-not_pending :
      (k : Text) (b : Batch M) (bs pending : Dict (Batch M))
      → lookup k bs ≡ some b
      → All (λ e. lookup e.1.id pending ≡ none) bs
      → lookup b.id pending ≡ none
  unfolding lookup
  lookup-not_pending k b [] pending h a = absurd (ground arith)
  lookup-not_pending k b ((j, c) ∷ bs) pending h a = elim (Bool-cases (same j k)) [
    | inl e ↦ let is_c : c ≡ b = ground arith in subst (λ x. lookup x.id pending ≡ none) is_c a.0
    | inr e ↦ lookup-not_pending k b bs pending (ground arith) a.1
  ]

  push_to-HasOwnIds :
      (byte_length : M → ℕ) (m : M) (cb : Option ℕ) (fresh k : Text) (mgr : BatchManager M)
      (b : Batch M)
      → HasOwnIds mgr
      → IsUnused fresh mgr
      → open_batch fresh k mgr ≡ some b
      → HasOwnIds (push_to byte_length m cb k mgr b)
  unfolding open_batch push
  push_to-HasOwnIds byte_length m cb fresh k mgr b w u h =
      let b' = push byte_length m cb b in
      elim (Option-cases (lookup k mgr.batches)) [
        | inl e ↦
            let id_is : b.id ≡ fresh = new_batch-id fresh k mgr.limits b (ground arith) in
            record {
              one_each = insert-IsDistinct k b' mgr.batches w.one_each;
              own_ids = insert-own_ids k b' mgr.batches (rw id_is u.0) w.own_ids;
              not_pending =
                  All-insert k b' mgr.batches mgr.pending_batches (rw id_is u.1) w.not_pending;
            }
        | inr (c, e) ↦
            let found : lookup k mgr.batches ≡ some b = ground arith in
            record {
              one_each = insert-IsDistinct k b' mgr.batches w.one_each;
              own_ids = rw (ids-insert k b' b mgr.batches found refl) w.own_ids;
              not_pending =
                  All-insert k b' mgr.batches mgr.pending_batches
                    (lookup-not_pending k b mgr.batches mgr.pending_batches found w.not_pending)
                    w.not_pending;
            }
      ]

  -- If no two open batches share a bucket or an id, none has the id of a pending one, and the id for
  -- a new batch is unused, then after `store` again no two open batches share a bucket or an id, and
  -- none has the id of a pending one.
  pub store-HasOwnIds :
      (byte_length : M → ℕ) (fresh k : Text) (m : M) (cb : Option ℕ) (mgr mgr' : BatchManager M)
      → HasOwnIds mgr
      → IsUnused fresh mgr
      → store byte_length fresh k m cb mgr ≡ some mgr'
      → HasOwnIds mgr'
  unfolding store
  store-HasOwnIds byte_length fresh k m cb mgr mgr' w u h =
      let ready = lock_if_full k mgr in
      elim (Option-cases (open_batch fresh k ready)) [
        | inl e ↦ absurd (ground arith)
        | inr (b, e) ↦
            let stored : push_to byte_length m cb k ready b ≡ mgr' = ground arith in
            subst HasOwnIds stored (
              push_to-HasOwnIds byte_length m cb fresh k ready b (lock_if_full-HasOwnIds k mgr w)
                (lock_if_full-IsUnused fresh k mgr u) e)
      ]
