-- ===== src/Broker/BatchManager/Held.antt =====
-- The messages that a batch manager (BatchManager.ts) holds.
use network_monorepo.Prelude.{
  ℕ, ◌+◌, ◌≡◌, refl, ◌∙◌, ap, Bool, false, inl, inr, Option, none, some, List, [], ◌∷◌, ◌++◌, arith,
  if◌then◌else◌, Text, same, Dict, lookup, insert, erase, has, keys, IsDistinct, Bool-cases,
  Option-cases, All, subst,
}
use network_monorepo.Broker.Batch.{Batch, Limits, new_batch, lock, schedule_insert, push}
use network_monorepo.Broker.BatchManager.Apart.{HasOwnIds}
use network_monorepo.Broker.BatchManager.{
  BatchManager, move_full_batch, lock_batch, lock_if_full, push_to, open_batch, store,
}

module _ {M : Type 0} (p : M → Bool) where
  -- The number of messages that pass the test.
  unfoldable pub tally : List M → ℕ
  tally [] = 0
  tally (m ∷ ms) = (if p m then 1 else 0) + tally ms

  unfoldable pub tally_all : Dict (Batch M) → ℕ
  tally_all [] = 0
  tally_all ((k, b) ∷ bs) = tally b.stream_messages + tally_all bs

  unfoldable pub held : BatchManager M → ℕ
  held mgr = tally_all mgr.batches + tally_all mgr.pending_batches

  abbrev tally_option : Option (Batch M) → ℕ
  tally_option none = 0
  tally_option (some b) = tally b.stream_messages

  tally-append : (ms ns : List M) → tally (ms ++ ns) ≡ tally ms + tally ns
  unfolding tally
  tally-append [] ns = ground arith
  tally-append (m ∷ ms) ns = ground (arith, tally-append ms ns)

  tally_all-insert :
      (k : Text) (b : Batch M) (bs : Dict (Batch M))
      → tally_all (insert k b bs) + tally_option (lookup k bs)
        ≡ tally_all bs + tally b.stream_messages
  unfolding tally_all insert lookup
  tally_all-insert k b [] = ground arith
  tally_all-insert k b ((j, c) ∷ bs) = ground (arith, tally_all-insert k b bs)

  erase-missing : (k : Text) (bs : Dict (Batch M)) → has k (keys bs) ≡ false → erase k bs ≡ bs
  unfolding erase has
  erase-missing k [] h = refl
  erase-missing k ((j, c) ∷ bs) h = ground (arith, erase-missing k bs)

  tally_all-erase :
      (k : Text) (bs : Dict (Batch M))
      → IsDistinct (keys bs)
      → tally_all (erase k bs) + tally_option (lookup k bs) ≡ tally_all bs
  unfolding tally_all erase lookup
  tally_all-erase k [] d = refl
  tally_all-erase k ((j, c) ∷ bs) d = ground (arith, tally_all-erase k bs, erase-missing k bs)

  lookup-All :
      (k : Text) (b : Batch M) (bs pending : Dict (Batch M))
      → lookup k bs ≡ some b
      → All (λ e. lookup e.1.id pending ≡ none) bs
      → lookup b.id pending ≡ none
  unfolding lookup
  lookup-All k b [] pending h a = ground arith
  lookup-All k b ((j, c) ∷ bs) pending h a = elim (Bool-cases (same j k)) [
    | inl e ↦ let is_c : c ≡ b = ground arith in subst (λ x. lookup x.id pending ≡ none) is_c a.0
    | inr e ↦ lookup-All k b bs pending (ground arith) a.1
  ]

  held-lock_batch :
      (k : Text) (b : Batch M) (mgr : BatchManager M)
      → HasOwnIds mgr
      → lookup k mgr.batches ≡ some b
      → held (lock_batch k b mgr) ≡ held mgr
  unfolding held lock_batch move_full_batch schedule_insert lock
  held-lock_batch k b mgr a h = ground (
    arith,
    tally_all-erase k mgr.batches a.one_each,
    tally_all-insert b.id (schedule_insert (lock b)) mgr.pending_batches,
    lookup-All k b mgr.batches mgr.pending_batches h a.not_pending,
  )

  held-lock_if_full :
      (k : Text) (mgr : BatchManager M) → HasOwnIds mgr → held (lock_if_full k mgr) ≡ held mgr
  unfolding lock_if_full
  held-lock_if_full k mgr a = elim (Option-cases (lookup k mgr.batches)) [
    | inl e ↦ rw (e, lock_if_full) refl
    | inr (b, e) ↦ rw (e, lock_if_full) (ground (arith, held-lock_batch k b mgr a e))
  ]

  new_batch-empty :
      (fresh k : Text) (limits : Limits) (b : Batch M)
      → new_batch fresh k limits ≡ some b
      → tally b.stream_messages ≡ 0
  unfolding new_batch tally
  new_batch-empty fresh k limits b h = ground arith

  open_batch-tally :
      (fresh k : Text) (mgr : BatchManager M) (b : Batch M)
      → open_batch fresh k mgr ≡ some b
      → tally b.stream_messages ≡ tally_option (lookup k mgr.batches)
  unfolding open_batch
  open_batch-tally fresh k mgr b h = elim (Option-cases (lookup k mgr.batches)) [
    | inl e ↦ rw e (new_batch-empty fresh k mgr.limits b (ground arith))
    | inr (c, e) ↦ let is_b : c ≡ b = ground arith in rw (e, is_b) refl
  ]

  held-push_to :
      (byte_length : M → ℕ) (m : M) (cb : Option ℕ) (k : Text) (mgr : BatchManager M) (b : Batch M)
      → tally b.stream_messages ≡ tally_option (lookup k mgr.batches)
      → held (push_to byte_length m cb k mgr b) ≡ held mgr + (if p m then 1 else 0)
  unfolding held push tally
  held-push_to byte_length m cb k mgr b h = ground (
    arith,
    tally_all-insert k (push byte_length m cb b) mgr.batches,
    tally-append b.stream_messages (m ∷ []),
  )

  -- Whichever batch is locked and moved to the pending ones on the way, `store` adds the message
  -- once to those that the manager holds and loses none, as the number of messages that pass any
  -- test shows. No two open batches share a bucket or an id, and none has the id of a pending one.
  pub held-store :
      (byte_length : M → ℕ) (fresh k : Text) (m : M) (cb : Option ℕ) (mgr mgr' : BatchManager M)
      → HasOwnIds mgr
      → store byte_length fresh k m cb mgr ≡ some mgr'
      → held mgr' ≡ held mgr + (if p m then 1 else 0)
  unfolding store
  held-store byte_length fresh k m cb mgr mgr' a h =
      let ready = lock_if_full k mgr in
      elim (Option-cases (open_batch fresh k ready)) [
        | inl e ↦ absurd (ground arith)
        | inr (b, e) ↦
            let stored : push_to byte_length m cb k ready b ≡ mgr' = ground arith in
            subst (λ x. held x ≡ held mgr + (if p m then 1 else 0)) stored
              (held-push_to byte_length m cb k ready b (open_batch-tally fresh k ready b e)
                ∙ ap (λ x. x + (if p m then 1 else 0)) (held-lock_if_full k mgr a))
      ]
