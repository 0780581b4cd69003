-- ===== src/Broker/BatchManager/Bounded.antt =====
-- The limits of the batches of a manager (Batch.ts, BatchManager.ts).
use network_monorepo.Prelude.{
  ℕ, ◌≤◌, ◌≡◌, refl, ap, subst, false, inl, inr, Option, some, [], ◌∷◌, arith, length, Text, same,
  Dict, lookup, insert, erase, lookup-erase, length-append, All, Bool-cases, Option-cases,
}
use network_monorepo.Broker.Batch.{
  Batch, Limits, opened_batch, is_valid, new_batch, lock, schedule_insert, insert_timer_fired, push,
  is_full,
}
use network_monorepo.Broker.BatchManager.{
  BatchManager, move_full_batch, lock_batch, lock_if_full, push_to, open_batch, store,
  insert_begins,
}

module _ {M : Type 0} where
  -- The limits are those of the manager, and neither the messages nor the retries exceed them.
  abbrev pub Fits : Limits → Batch M → Type 0
  Fits limits b =
      (b.limits ≡ limits)
      × (length b.stream_messages ≤ limits.max_records)
      × (b.retries ≤ limits.max_retries)

  pub record IsBounded (mgr : BatchManager M) : Type 0 where
    pub open_fit : All (λ e. Fits mgr.limits e.1) mgr.batches
    pub pending_fit : All (λ e. Fits mgr.limits e.1) mgr.pending_batches

  insert-All :
      (l : Limits) (k : Text) (b : Batch M) (bs : Dict (Batch M))
      → Fits l b
      → All (λ e. Fits l e.1) bs
      → All (λ e. Fits l e.1) (insert k b bs)
  unfolding insert
  insert-All l k b [] f a = (f, tt)
  insert-All l k b ((j, c) ∷ bs) f a = elim (Bool-cases (same j k)) [
    | inl e ↦ rw e (f, a.1)
    | inr e ↦ rw e (a.0, insert-All l k b bs f a.1)
  ]

  erase-All :
      (l : Limits) (k : Text) (bs : Dict (Batch M))
      → All (λ e. Fits l e.1) bs
      → All (λ e. Fits l e.1) (erase k bs)
  unfolding erase
  erase-All l k [] a = tt
  erase-All l k ((j, c) ∷ bs) a = elim (Bool-cases (same j k)) [
    | inl e ↦ rw e (erase-All l k bs a.1)
    | inr e ↦ rw e (a.0, erase-All l k bs a.1)
  ]

  lookup-Fits :
      (l : Limits) (k : Text) (b : Batch M) (bs : Dict (Batch M))
      → lookup k bs ≡ some b
      → All (λ e. Fits l e.1) bs
      → Fits l b
  unfolding lookup
  lookup-Fits l k b [] h a = absurd (ground arith)
  lookup-Fits l k b ((j, c) ∷ bs) h a = elim (Bool-cases (same j k)) [
    | inl e ↦ let is_c : c ≡ b = ground arith in subst (Fits l) is_c a.0
    | inr e ↦ lookup-Fits l k b bs (ground arith) a.1
  ]

  lock_batch-IsBounded :
      (k : Text) (b : Batch M) (mgr : BatchManager M)
      → Fits mgr.limits b
      → IsBounded mgr
      → IsBounded (lock_batch k b mgr)
  unfolding lock_batch move_full_batch schedule_insert lock
  lock_batch-IsBounded k b mgr f w = record {
    open_fit = erase-All mgr.limits k mgr.batches w.open_fit;
    pending_fit = insert-All mgr.limits b.id _ mgr.pending_batches f w.pending_fit;
  }

  lock_if_full-IsBounded :
      (k : Text) (mgr : BatchManager M) → IsBounded mgr → IsBounded (lock_if_full k mgr)
  unfolding lock_if_full
  lock_if_full-IsBounded k mgr w = elim (Option-cases (lookup k mgr.batches)) [
    | inl e ↦ rw (e, lock_if_full) w
    | inr (b, e) ↦ elim (Bool-cases (is_full b)) [
      | inl full ↦
          rw (e, lock_if_full, full)
            (lock_batch-IsBounded k b mgr (lookup-Fits mgr.limits k b mgr.batches e w.open_fit) w)
      | inr room ↦ rw (e, lock_if_full, room) w
    ]
  ]

  lock_if_full-room :
      (k : Text) (b : Batch M) (mgr : BatchManager M)
      → lookup k (lock_if_full k mgr).batches ≡ some b
      → is_full b ≡ false
  unfolding lock_if_full lock_batch move_full_batch
  lock_if_full-room k b mgr h = ground (arith, lookup-erase k k mgr.batches)

  lock_if_full-limits : (k : Text) (mgr : BatchManager M) → (lock_if_full k mgr).limits ≡ mgr.limits
  unfolding lock_if_full lock_batch move_full_batch
  lock_if_full-limits k mgr = ground arith

  push-Fits :
      (byte_length : M → ℕ) (m : M) (cb : Option ℕ) (l : Limits) (b : Batch M)
      → Fits l b
      → is_full b ≡ false
      → Fits l (push byte_length m cb b)
  unfolding push is_full
  push-Fits byte_length m cb l b (e, n, r) room =
      let limit : b.limits.max_records ≡ l.max_records = ap (λ x. x.max_records) e in
      (e, ground (arith, length-append {0} b.stream_messages (m ∷ [])), r)

  new_batch-Fits :
      (fresh k : Text) (l : Limits) (b : Batch M)
      → new_batch fresh k l ≡ some b
      → Fits l b × (is_full b ≡ false)
  unfolding new_batch is_full is_valid
  new_batch-Fits fresh [] l b h = absurd (ground arith)
  new_batch-Fits fresh (x ∷ k) l b h =
      let is_new : opened_batch fresh (x ∷ k) l ≡ b = ground arith in
      subst (λ y. Fits l y × (is_full y ≡ false)) is_new
        ((refl, omega arith, omega arith), ground arith)

  open_batch-Fits :
      (fresh k : Text) (mgr : BatchManager M) (b : Batch M)
      → IsBounded mgr
      → open_batch fresh k (lock_if_full k mgr) ≡ some b
      → Fits (lock_if_full k mgr).limits b × (is_full b ≡ false)
  unfolding open_batch
  open_batch-Fits fresh k mgr b w h =
      let ready = lock_if_full k mgr in
      elim (Option-cases (lookup k ready.batches)) [
        | inl e ↦ new_batch-Fits fresh k ready.limits b (ground arith)
        | inr (c, e) ↦
            let found : lookup k ready.batches ≡ some b = ground arith in
            (
              lookup-Fits ready.limits k b ready.batches found
                  (lock_if_full-IsBounded k mgr w).open_fit,
              lock_if_full-room k b mgr found,
            )
      ]

  -- After `store` no batch, open or pending, holds more than the limit of messages or has more than
  -- the limit of retries, if none did before.
  pub store-IsBounded :
      (byte_length : M → ℕ) (fresh k : Text) (m : M) (cb : Option ℕ) (mgr mgr' : BatchManager M)
      → IsBounded mgr
      → store byte_length fresh k m cb mgr ≡ some mgr'
      → IsBounded mgr'
  unfolding store
  store-IsBounded byte_length fresh k m cb mgr mgr' w h =
      let ready = lock_if_full k mgr in
      let w' = lock_if_full-IsBounded k mgr w in
      elim (Option-cases (open_batch fresh k ready)) [
        | inl e ↦ absurd (ground arith)
        | inr (b, e) ↦
            let stored : push_to byte_length m cb k ready b ≡ mgr' = ground arith in
            let f = open_batch-Fits fresh k mgr b w e in
            subst IsBounded stored (record {
              open_fit =
                  insert-All ready.limits k (push byte_length m cb b) ready.batches
                    (push-Fits byte_length m cb ready.limits b f.0 f.1) w'.open_fit;
              pending_fit = w'.pending_fit;
            })
      ]

  -- The timer of a pending batch, which counts a retry, keeps all batches within their limits.
  pub insert_begins-IsBounded :
      (id : Text) (mgr : BatchManager M) → IsBounded mgr → IsBounded (insert_begins id mgr).1
  unfolding insert_begins insert_timer_fired
  insert_begins-IsBounded id mgr w = elim (Option-cases (lookup id mgr.pending_batches)) [
    | inl e ↦ rw (e, insert_begins) w
    | inr (b, e) ↦
        let f = lookup-Fits mgr.limits id b mgr.pending_batches e w.pending_fit in
        let limit : b.limits.max_retries ≡ mgr.limits.max_retries = ap (λ x. x.max_retries) f.0 in
        rw (e, insert_begins)
          (record {
            open_fit = w.open_fit;
            pending_fit =
                insert-All mgr.limits id (insert_timer_fired b) mgr.pending_batches
                  (f.0, f.1, ground arith) w.pending_fit;
          })
  ]
