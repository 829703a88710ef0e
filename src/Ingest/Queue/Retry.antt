-- ===== src/Ingest/Queue/Retry.antt =====
-- The attempts of insertWithRetry (internal/ingest/queue.go).
use opentrace.Base.{
  ℕ, zero, suc, ◌+◌, ◌≡◌, ◌⊎◌, refl, ap, ◌∙◌, List, ◌++◌, Option, none, some, inl, inr, Result, ok,
  err,
}
use opentrace.Ingest.Queue.{Queue, attempts, insert_with_retry}

-- A list kept with the store that has the entries of the calls of BatchInsert that returned no error.
pub record IsLog {A S E : Type 0} (batch_insert : S → List A → S × Result E ℕ) (stored : S → List A)
    : Type 0 where
  pub on_ok :
      (s : S) (es : List A) (n : ℕ)
      → (batch_insert s es).1 ≡ ok n
      → stored (batch_insert s es).0 ≡ stored s ++ es
  pub on_err :
      (s : S) (es : List A) (e : E)
      → (batch_insert s es).1 ≡ err e
      → stored (batch_insert s es).0 ≡ stored s

abbrev pub confirmed : {A S : Type 0} → S × List A → List A
confirmed s = s.1

module _ {A S E : Type 0} (batch_insert : S → List A → S × Result E ℕ) where
  abbrev noted : Result E ℕ → List A → List A → List A
  noted (ok n) confirmed es = confirmed ++ es
  noted (err e) confirmed es = confirmed

  -- Any store with such a list at its side, which no code reads. Of what the store does with a batch
  -- nothing is asked: a call may leave entries out, or store them and fail.
  abbrev pub recorded : S × List A → List A → (S × List A) × Result E ℕ
  recorded s es = let (s', r) = batch_insert s.0 es in ((s', noted r s.1 es), r)

  pub recorded-IsLog : IsLog recorded confirmed
  recorded-IsLog = record {
    on_ok = λ s es n h. ap (λ r. noted r s.1 es) h;
    on_err = λ s es e h. ap (λ r. noted r s.1 es) h;
  }

module _ {A S : Type 0} (stored : S → List A) where
  -- What a number of attempts to store a chunk comes to.
  unfoldable pub Outcome : {E : Type 0} → Queue A → S → List A → Queue A × S × Option E → Type 0
  Outcome q s chunk r =
      (r.0 ≡ record q { flush_count = r.0.flush_count })
      × (((r.2 ≡ none) × (stored r.1 ≡ stored s ++ chunk))
          ⊎ ((e : _) × (r.2 ≡ some e) × (stored r.1 ≡ stored s)))

Result-cases : {A E : Type 0} (r : Result E A) → ((a : A) × (r ≡ ok a)) ⊎ ((e : E) × (r ≡ err e))
Result-cases (ok a) = inl (a, refl)
Result-cases (err e) = inr (e, refl)

module _ {A S E : Type 0} (batch_insert : S → List A → S × Result E ℕ) (stored : S → List A)
    (log : IsLog batch_insert stored) where
  attempts_step :
      (n : ℕ) (last : Option E) (q : Queue A) (s : S) (chunk : List A)
      → ((e : E) (q' : Queue A) (s' : S)
          → Outcome stored q' s' chunk (attempts batch_insert n (some e) q' s' chunk))
      → Outcome stored q s chunk (attempts batch_insert (suc n) last q s chunk)
  unfolding attempts Outcome
  attempts_step n last q s chunk ih = elim (Result-cases (batch_insert s chunk).1) [
    | inl (k, eq) ↦ rw (eq, attempts) (refl, inl (refl, log.on_ok s chunk k eq))
    | inr (e, eq) ↦
        let (same, outcome) =
          ih e (record q { flush_count = q.flush_count + 1 }) (batch_insert s chunk).0 in
        rw (eq, attempts)
          (
            same,
            elim outcome [
              | inl (none', h) ↦
                  inl (none', h ∙ ap (λ (l : List A). l ++ chunk) (log.on_err s chunk e eq))
              | inr (e', some', h) ↦ inr (e', some', h ∙ log.on_err s chunk e eq)
            ],
          )
  ]

  attempts_after :
      (n : ℕ) (e : E) (q : Queue A) (s : S) (chunk : List A)
      → Outcome stored q s chunk (attempts batch_insert n (some e) q s chunk)
  unfolding attempts Outcome
  attempts_after zero e q s chunk = (refl, inr (e, refl, refl))
  attempts_after (suc n) e q s chunk =
      attempts_step n (some e) q s chunk (λ e' q' s'. attempts_after n e' q' s' chunk)

  pub insert_with_retry_lem :
      (q : Queue A) (s : S) (chunk : List A)
      → Outcome stored q s chunk (insert_with_retry batch_insert q s chunk)
  unfolding insert_with_retry
  insert_with_retry_lem q s chunk =
      attempts_step 2 none q s chunk (λ e' q' s'. attempts_after 2 e' q' s' chunk)

module _ {A S E : Type 0} (batch_insert : S → List A → S × Result E ℕ) where
  attempts_queue :
      (n : ℕ) (last : Option E) (q : Queue A) (s : S) (chunk : List A)
      → let r = attempts batch_insert n last q s chunk in
        r.0 ≡ record q { flush_count = r.0.flush_count }
  unfolding attempts
  attempts_queue zero last q s chunk = refl
  attempts_queue (suc n) last q s chunk = elim (Result-cases (batch_insert s chunk).1) [
    | inl (k, eq) ↦ rw (eq, attempts) refl
    | inr (e, eq) ↦
        rw (eq, attempts)
          (attempts_queue n (some e) (record q { flush_count = q.flush_count + 1 })
            (batch_insert s chunk).0 chunk)
  ]

  pub insert_with_retry_queue :
      (q : Queue A) (s : S) (chunk : List A)
      → let r = insert_with_retry batch_insert q s chunk in
        r.0 ≡ record q { flush_count = r.0.flush_count }
  unfolding insert_with_retry
  insert_with_retry_queue q s chunk = attempts_queue 3 none q s chunk
