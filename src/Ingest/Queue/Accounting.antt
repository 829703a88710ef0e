-- ===== src/Ingest/Queue/Accounting.antt =====
-- Where the entries of a queue go (internal/ingest/queue.go).
use opentrace.Base.{
  ℕ, zero, suc, ◌+◌, ◌≤◌, ◌<◌, min, ◌≡◌, refl, sym, ap, ◌∙◌, List, [], ◌∷◌, ◌++◌, arith, Bool, not,
  ◌&&◌, if◌then◌else◌, length, take, drop, take-append-drop, length-drop, length-append, Option,
  none, some, Bool-cases, inl, inr, Result,
}
use opentrace.Ingest.Queue.{
  Queue, has_room, requeue_or_drop, requeue_failed, insert_with_retry, flush_chunks, flush_batch,
  flush_taken, flush,
}
use opentrace.Ingest.Queue.Retry.{IsLog, Outcome, insert_with_retry_lem, insert_with_retry_queue}
use opentrace.Ingest.Queue.Bounds.{settled-Follows}

-- How many entries of a list a predicate holds of.
abbrev pub count : {A : Type 0} → (A → Bool) → List A → ℕ
count p [] = 0
count p (x ∷ xs) = let rest = count p xs in if p x then suc rest else rest

pub count-append :
    {A : Type 0} (p : A → Bool) (xs ys : List A) → count p (xs ++ ys) ≡ count p xs + count p ys
count-append p [] ys = omega arith
count-append p (x ∷ xs) ys = ground (arith, count-append p xs ys)

pub count-take-drop :
    {A : Type 0} (p : A → Bool) (n : ℕ) (xs : List A)
    → count p (take n xs) + count p (drop n xs) ≡ count p xs
count-take-drop p n xs =
    sym (count-append p (take n xs) (drop n xs)) ∙ ap (λ t. count p t) (take-append-drop n xs)

module _ {A S : Type 0} (stored : S → List A) where
  -- The new entries and those of the store's list and the buffer before are, as a multiset, those of
  -- the list and the buffer after with the lost ones, which the drop counter counts.
  pub record Accounts (new : List A) (q : Queue A) (s : S) (q' : Queue A) (s' : S) : Type 0 where
    pub lost : List A
    pub counted : q'.drop_count ≡ q.drop_count + length lost
    pub kept :
        (p : A → Bool)
        → count p (stored s') + (count p q'.buffer + count p lost)
          ≡ count p (stored s) + (count p q.buffer + count p new)

module _ {A S : Type 0} (stored : S → List A) where
  pub requeue_or_drop-Accounts :
      (q : Queue A) (s : S) (chunk : List A) → Accounts stored chunk q s (requeue_or_drop q chunk) s
  unfolding requeue_or_drop
  requeue_or_drop-Accounts q s chunk = elim (Bool-cases (not q.stopped && has_room q chunk)) [
    | inl room ↦ rw room (record {
      lost = [];
      counted = omega arith;
      kept = λ p. omega (arith, count-append p chunk q.buffer);
    })
    | inr full ↦ rw full (record { lost = chunk; counted = refl; kept = λ p. omega arith })
  ]

  settled-Accounts :
      {E : Type 0} (q : Queue A) (s : S) (chunk : List A) (q' : Queue A) (s' : S)
      (failed : Option E)
      → Outcome stored q s chunk (q', s', failed)
      → Accounts stored chunk q s (requeue_failed failed q' chunk) s'
  unfolding Outcome
  settled-Accounts q s chunk q' s' none (same, inl (e, h)) = record {
    lost = [];
    counted = omega (arith, ap (λ (r : Queue A). r.drop_count) same);
    kept = λ p. omega (
      arith,
      ap (λ t. count p t) h,
      count-append p (stored s) chunk,
      ap (λ (r : Queue A). count p r.buffer) same,
    );
  }
  settled-Accounts q s chunk q' s' none (same, inr (e, h, k)) = absurd cc
  settled-Accounts q s chunk q' s' (some e) (same, inl (h, k)) = absurd cc
  settled-Accounts q s chunk q' s' (some e) (same, inr (e', h, k)) =
      let a = requeue_or_drop-Accounts q' s' chunk in
      record {
        lost = a.lost;
        counted = omega (arith, a.counted, ap (λ (r : Queue A). r.drop_count) same);
        kept = λ p.
            omega
              (arith, a.kept p, ap (λ t. count p t) k, ap (λ (r : Queue A). count p r.buffer) same);
      }

  -- What is accounted for in two steps.
  both-Accounts :
      (xs ys all : List A) (q : Queue A) (s : S) (q' : Queue A) (s' : S) (q'' : Queue A) (s'' : S)
      → Accounts stored xs q s q' s'
      → Accounts stored ys q' s' q'' s''
      → ((p : A → Bool) → count p xs + count p ys ≡ count p all)
      → Accounts stored all q s q'' s''
  both-Accounts xs ys all q s q' s' q'' s'' a b split = record {
    lost = a.lost ++ b.lost;
    counted = omega (arith, a.counted, b.counted, length-append a.lost b.lost);
    kept = λ p. omega (arith, a.kept p, b.kept p, split p, count-append p a.lost b.lost);
  }

module _ {A S E : Type 0} (batch_insert : S → List A → S × Result E ℕ) (stored : S → List A)
    (log : IsLog batch_insert stored) where
  flush_chunks-Accounts :
      (fuel : ℕ) (q : Queue A) (s : S) (entries : List A)
      → length entries ≤ fuel
      → 0 < q.max_batch_size
      → let r = flush_chunks batch_insert fuel q s entries in Accounts stored entries q s r.0 r.1
  unfolding flush_chunks
  flush_chunks-Accounts zero q s [] h b = record {
    lost = [];
    counted = omega arith;
    kept = λ p. omega arith;
  }
  flush_chunks-Accounts zero q s (e ∷ es) h b = absurd (omega arith)
  flush_chunks-Accounts (suc fuel) q s [] h b = record {
    lost = [];
    counted = omega arith;
    kept = λ p. omega arith;
  }
  flush_chunks-Accounts (suc fuel) q s (e ∷ es) h b =
      let all : List A = e ∷ es in
      let end = min q.max_batch_size (length all) in
      let tried = insert_with_retry batch_insert q s (take end all) in
      let now =
        settled-Accounts stored q s (take end all) tried.0 tried.1 tried.2
          (insert_with_retry_lem batch_insert stored log q s (take end all)) in
      let follows =
        settled-Follows q (take end all) tried.0 tried.2
          (insert_with_retry_queue batch_insert q s (take end all)) in
      let later =
        flush_chunks-Accounts fuel (requeue_failed tried.2 tried.0 (take end all)) tried.1
          (drop end all) (omega (arith, length-drop end all))
          (omega (arith, follows.same_batch_size)) in
      both-Accounts stored (take end all) (drop end all) all _ _ _ _ _ _ now later
        (λ p. count-take-drop p end all)

  flush_batch-Accounts :
      (q : Queue A) (s : S) (entries : List A)
      → 0 < q.max_batch_size
      → let r = flush_batch batch_insert q s entries in Accounts stored entries q s r.0 r.1
  unfolding flush_batch
  flush_batch-Accounts q s entries b =
      flush_chunks-Accounts (length entries) q s entries (omega arith) b

  -- Flush loses no entry that it does not count, and invents none.
  pub flush-Accounts :
      (q : Queue A) (s : S)
      → 0 < q.max_batch_size
      → let r = flush batch_insert q s in Accounts stored [] q s r.0 r.1
  unfolding flush
  flush-Accounts q s b = taken q.buffer refl
    where
      taken :
          (l : List A)
          → l ≡ q.buffer
          → let r = flush_taken batch_insert l q s in Accounts stored [] q s r.0 r.1
      taken [] h = record { lost = []; counted = omega arith; kept = λ p. omega arith }
      taken (e ∷ es) h =
          let a = flush_batch-Accounts (record q { buffer = [] }) s (e ∷ es) b in
          record {
            lost = a.lost;
            counted = a.counted;
            kept = λ p. omega (arith, a.kept p, ap (λ t. count p t) h);
          }
