-- ===== src/Watcher/KeyedMutex/Exclusion.antt =====
-- What keyedMutex promises to any number of goroutines in any interleaving (internal/watcher/watch_evaluator.go).
use opentrace.Base.{
  ℕ, zero, suc, ◌≤◌, ◌≡◌, ◌⊎◌, inl, inr, refl, sym, ap, ◌∙◌, arith, Bytes, true, false, none, some,
  get_elem?, replicate, Bool-cases, Option-cases,
}
use opentrace.Watcher.KeyedMutex.{
  Place, idle, waiting, holding, releasing, System, Step, enter, acquire, release, leave, start,
  Reach, first, step,
}
use opentrace.Watcher.KeyedMutex.Count.{count, count-two, count-find, count-none}
use opentrace.Watcher.KeyedMutex.Invariant.{
  claim, uses, holds, same_number, IsSound, acquire-IsSound, release-IsSound,
}
use opentrace.Watcher.KeyedMutex.Enter.{enter-IsSound}
use opentrace.Watcher.KeyedMutex.Leave.{leave-IsSound}

Step-IsSound : (s t : System) → IsSound s → Step s t → IsSound t
Step-IsSound s t inv (enter i key h) = enter-IsSound s i key inv h
Step-IsSound s t inv (acquire i key a h free) = acquire-IsSound s i key a inv h free
Step-IsSound s t inv (release i key a h) = release-IsSound s i key a inv h
Step-IsSound s t inv (leave i key a h) = leave-IsSound s i key inv a h

idle_only : (n i : ℕ) (p : Place) → get_elem? (replicate n idle) i ≡ some p → p ≡ idle
idle_only zero i p h = absurd cc
idle_only (suc n) zero p h = cc
idle_only (suc n) (suc i) p h = idle_only n i p h

start-IsSound : (n : ℕ) → IsSound (start n)
start-IsSound n = record {
  mapped = λ i p key a h c. no_claim p (idle_only n i p h) c;
  entry = λ key a e. absurd cc;
  injective = λ key key' a e e'. absurd cc;
}
  where
    no_claim :
        {key : Bytes} {a : ℕ} (p : Place) → p ≡ idle → claim p ≡ some (key, a) → none ≡ some a
    no_claim idle e c = absurd cc
    no_claim (waiting k b) e c = absurd cc
    no_claim (holding k b) e c = absurd cc
    no_claim (releasing k b) e c = absurd cc

pub Reach-IsSound : (n : ℕ) (s : System) → Reach n s → IsSound s
Reach-IsSound n s first = start-IsSound n
Reach-IsSound n s (step r t) = Step-IsSound _ s (Reach-IsSound n _ r) t

holds-le :
    (s : System) (key : Bytes) (a : ℕ)
    → IsSound s
    → s.mutex.locks key ≡ some a
    → count (holds a) s.threads ≤ 1
holds-le s key a inv e =
    let exclusive = (inv.entry key a e).exclusive in
    elim (Bool-cases (s.mutex.heap a).locked) [
      | inl b ↦ omega (arith, rw b at exclusive)
      | inr b ↦ omega (arith, rw b at exclusive)
    ]

-- For any number of goroutines that start outside and reach a state in any interleaving of the
-- steps of lock and of the function that it returns: two of them that are both between lock and
-- unlock for one key are the same.
pub mutual_exclusion :
    (n : ℕ) (s : System) (i j : ℕ) (key : Bytes) (a b : ℕ)
    → Reach n s
    → get_elem? s.threads i ≡ some (holding key a)
    → get_elem? s.threads j ≡ some (holding key b)
    → i ≡ j
mutual_exclusion n s i j key a b r h k =
    let inv = Reach-IsSound n s r in
    let at_a = inv.mapped i (holding key a) key a h refl in
    let at_b = inv.mapped j (holding key b) key b k refl in
    let same : some b ≡ some a = sym at_b ∙ at_a in
    let address : b ≡ a = cc in
    count-two (holds a) s.threads i j (holding key a) (holding key b) h k (same_number a)
      (rw address (same_number a)) (holds-le s key a inv at_a)

-- In every state that goroutines reach in which all of them are outside, the map has no entry left
-- under any key.
pub no_leak :
    (n : ℕ) (s : System) (key : Bytes)
    → Reach n s
    → ((i : ℕ) (p : Place) → get_elem? s.threads i ≡ some p → p ≡ idle)
    → s.mutex.locks key ≡ none
no_leak n s key r quiet = elim (Option-cases (s.mutex.locks key)) [
  | inl e ↦ e
  | inr (a, e) ↦
      let m = (Reach-IsSound n s r).entry key a e in
      absurd (
        omega (
          arith,
          m.counted,
          m.used,
          count-none (uses a) s.threads (λ i p h. ap (uses a) (quiet i p h)),
        ))
]

-- In every state that goroutines reach, where one waits for a mutex, the mutex is free or some
-- goroutine is between lock and unlock with it.
pub no_deadlock :
    (n : ℕ) (s : System) (i : ℕ) (key : Bytes) (a : ℕ)
    → Reach n s
    → get_elem? s.threads i ≡ some (waiting key a)
    → ((s.mutex.heap a).locked ≡ false)
      ⊎ ((j : ℕ) × (p : Place) × (get_elem? s.threads j ≡ some p) × (holds a p ≡ true))
no_deadlock n s i key a r h =
    let inv = Reach-IsSound n s r in
    let m = inv.entry key a (inv.mapped i (waiting key a) key a h refl) in
    let exclusive = m.exclusive in
    elim (Bool-cases (s.mutex.heap a).locked) [
      | inr e ↦ inl e
      | inl e ↦ inr (count-find (holds a) s.threads (omega (arith, rw e at exclusive)))
    ]
