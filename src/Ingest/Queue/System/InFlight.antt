-- ===== src/Ingest/Queue/System/InFlight.antt =====
-- The entries that goroutines have taken from the buffer of a queue and not yet put anywhere.
use opentrace.Base.{
  ℕ, zero, suc, ◌+◌, min, ◌≡◌, refl, ◌∙◌, arith, List, [], ◌∷◌, ◌++◌, Bool, leb, length, take, drop,
  some, get_elem?, set, replicate, Bool-cases, inl, inr,
}
use opentrace.Ingest.Queue.{Queue}
use opentrace.Ingest.Queue.Accounting.{count, count-append, count-take-drop}
use opentrace.Ingest.Queue.System.{
  AfterFlush, leave, again, end_loop, try_again, Point, idle, signalling, joining, looping, ended,
  flushing, inserting, requeueing, retrying, storing, place_after, next_chunk, after_buffered,
  failed,
}

module _ {A : Type 0} where
  abbrev pub held : Point A → List A
  held idle = []
  held signalling = []
  held joining = []
  held looping = []
  held ended = []
  held (flushing n) = []
  held (inserting left chunk rest n) = chunk ++ rest
  held (requeueing chunk rest n) = chunk ++ rest
  held (retrying entries) = []
  held (storing entries) = []

  abbrev pub in_flight : List (Point A) → List A
  in_flight [] = []
  in_flight (x ∷ xs) = held x ++ in_flight xs

  module _ (p : A → Bool) where
    pub in_flight-set :
        (xs : List (Point A)) (i : ℕ) (x y : Point A)
        → get_elem? xs i ≡ some x
        → count p (in_flight (set xs i y)) + count p (held x)
          ≡ count p (in_flight xs) + count p (held y)
    in_flight-set [] i x y h = absurd cc
    in_flight-set (z ∷ xs) zero x y h =
        let e : z ≡ x = cc in
        rw e (
          omega
            (arith, count-append p (held x) (in_flight xs), count-append p (held y) (in_flight xs)))
    in_flight-set (z ∷ xs) (suc i) x y h = omega (
      arith,
      in_flight-set xs i x y h,
      count-append p (held z) (in_flight xs),
      count-append p (held z) (in_flight (set xs i y)),
    )

    pub in_flight-none :
        (xs : List (Point A))
        → ((i : ℕ) (x : Point A) → get_elem? xs i ≡ some x → count p (held x) ≡ 0)
        → count p (in_flight xs) ≡ 0
    in_flight-none [] h = refl
    in_flight-none (z ∷ xs) h = omega (
      arith,
      count-append p (held z) (in_flight xs),
      h 0 z refl,
      in_flight-none xs (λ i x e. h (suc i) x e),
    )

    pub held-place_after : (n : AfterFlush A) → count p (held (place_after n)) ≡ 0
    held-place_after leave = refl
    held-place_after again = refl
    held-place_after end_loop = refl
    held-place_after (try_again entries) = refl

    pub held-next_chunk :
        (m : ℕ) (l : List A) (n : AfterFlush A) → count p (held (next_chunk m l n)) ≡ count p l
    held-next_chunk m [] n = held-place_after n
    held-next_chunk m (e ∷ es) n =
        let end = min m (length (e ∷ es)) in
        count-append p (take end (e ∷ es)) (drop end (e ∷ es)) ∙ count-take-drop p end (e ∷ es)

    pub held-after_buffered : (q : Queue A) → count p (held (after_buffered q)) ≡ 0
    held-after_buffered q = elim (Bool-cases (leb q.max_batch_size (length q.buffer))) [
      | inl e ↦ rw e refl
      | inr e ↦ rw e refl
    ]

    pub held-failed :
        (left : ℕ) (chunk rest : List A) (n : AfterFlush A)
        → count p (held (failed left chunk rest n)) ≡ count p chunk + count p rest
    held-failed zero chunk rest n = count-append p chunk rest
    held-failed (suc left) chunk rest n = count-append p chunk rest

  pub in_flight-start :
      (n : ℕ) (p : A → Bool) → count p (in_flight (looping ∷ replicate n idle)) ≡ 0
  in_flight-start zero p = refl
  in_flight-start (suc n) p = in_flight-start n p
