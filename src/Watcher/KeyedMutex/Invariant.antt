-- ===== src/Watcher/KeyedMutex/Invariant.antt =====
-- What holds of a keyedMutex in every state that goroutines reach (internal/watcher/watch_evaluator.go).
use opentrace.Base.{
  get_elem?-set, ℕ, ◌+◌, ◌-◌, ◌≤◌, ◌<◌, ◌≡◌, ◌⊎◌, inl, inr, refl, arith, Bytes, Bool, true, false,
  ◌==◌, Option, none, some, get_elem?, set, Bool-cases,
}
use opentrace.Watcher.KeyedMutex.{
  RefCountedMutex, store, set_locked, Place, idle, waiting, holding, releasing, System, move,
}
use opentrace.Watcher.KeyedMutex.Count.{one_if, count, count-set, count-at}

pub eq_or_ne : (m n : ℕ) → (m ≡ n) ⊎ ((n == m) ≡ false)
eq_or_ne m n = ground arith

pub same_number : (n : ℕ) → (n == n) ≡ true
same_number n = ground arith

module _ (heap : ℕ → RefCountedMutex) (a a' : ℕ) where
  refs-locked :
      (b : Bool) → (store heap a (record (heap a) { locked = b }) a').refs ≡ (heap a').refs
  refs-locked b = elim (eq_or_ne a a') [ inl e ↦ rw (e, same_number a') refl | inr e ↦ rw e refl ]

  pub locked-refs :
      (r : ℕ) → (store heap a (record (heap a) { refs = r }) a').locked ≡ (heap a').locked
  locked-refs r = elim (eq_or_ne a a') [ inl e ↦ rw (e, same_number a') refl | inr e ↦ rw e refl ]

  pub refs-more :
      (store heap a (record (heap a) { refs = (heap a).refs + 1 }) a').refs
      ≡ (heap a').refs + one_if (a == a')
  refs-more = elim (eq_or_ne a a') [
    | inl e ↦ rw (e, same_number a') refl
    | inr e ↦ rw e (ground arith)
  ]

  pub refs-less :
      (store heap a (record (heap a) { refs = (heap a).refs - 1 }) a').refs
      ≡ (heap a').refs - one_if (a == a')
  refs-less = elim (eq_or_ne a a') [
    | inl e ↦ rw (e, same_number a') refl
    | inr e ↦ rw e (ground arith)
  ]

  locked-true :
      (heap a).locked ≡ false
      → one_if (store heap a (record (heap a) { locked = true }) a').locked
        ≡ one_if (heap a').locked + one_if (a == a')
  locked-true h = elim (eq_or_ne a a') [
    | inl e ↦
        let h' : (heap a').locked ≡ false = rw e at h in rw (e, same_number a', h') (omega arith)
    | inr e ↦ rw e (ground arith)
  ]

  locked-false :
      (heap a).locked ≡ true
      → one_if (store heap a (record (heap a) { locked = false }) a').locked + one_if (a == a')
        ≡ one_if (heap a').locked
  locked-false h = elim (eq_or_ne a a') [
    | inl e ↦
        let h' : (heap a').locked ≡ true = rw e at h in rw (e, same_number a', h') (omega arith)
    | inr e ↦ rw e (ground arith)
  ]

-- The key and the mutex that a goroutine has entered for.
abbrev pub claim : Place → Option (Bytes × ℕ)
claim idle = none
claim (waiting key a) = some (key, a)
claim (holding key a) = some (key, a)
claim (releasing key a) = some (key, a)

abbrev pub uses : ℕ → Place → Bool
uses a idle = false
uses a (waiting key b) = b == a
uses a (holding key b) = b == a
uses a (releasing key b) = b == a

abbrev pub holds : ℕ → Place → Bool
holds a idle = false
holds a (waiting key b) = false
holds a (holding key b) = b == a
holds a (releasing key b) = false

-- What holds of the mutex of an entry of the map.
pub record IsEntry (s : System) (a : ℕ) : Type 0 where
  pub counted : (s.mutex.heap a).refs ≡ count (uses a) s.threads
  pub used : 1 ≤ (s.mutex.heap a).refs
  pub made : a < s.mutex.fresh
  pub exclusive : one_if (s.mutex.heap a).locked ≡ count (holds a) s.threads

pub record IsSound (s : System) : Type 0 where
  pub mapped :
      (i : ℕ) (p : Place) (key : Bytes) (a : ℕ)
      → get_elem? s.threads i ≡ some p
      → claim p ≡ some (key, a)
      → s.mutex.locks key ≡ some a
  pub entry : (key : Bytes) (a : ℕ) → s.mutex.locks key ≡ some a → IsEntry s a
  pub injective :
      (key key' : Bytes) (a : ℕ)
      → s.mutex.locks key ≡ some a
      → s.mutex.locks key' ≡ some a
      → key ≡ key'

-- A place that a goroutine moves to with its claim in the map leaves the claims of the others there.
pub mapped_move :
    (s : System) (locks : Bytes → Option ℕ) (i : ℕ) (q : Place)
    → ((j : ℕ) (p : Place) (key : Bytes) (a : ℕ)
        → get_elem? (set s.threads i q) j ≡ some p
        → get_elem? s.threads j ≡ some p
        → claim p ≡ some (key, a)
        → locks key ≡ some a)
    → ((key : Bytes) (a : ℕ) → claim q ≡ some (key, a) → locks key ≡ some a)
    → (j : ℕ) (p : Place) (key : Bytes) (a : ℕ) → get_elem? (set s.threads i q) j ≡ some p
    → claim p ≡ some (key, a)
    → locks key ≡ some a
mapped_move s locks i q others own j p key a h c = elim (get_elem?-set s.threads i j p q h) [
  | inl e ↦ own key a (rw e at c)
  | inr e ↦ others j p key a h e c
]

pub acquire-IsSound :
    (s : System) (i : ℕ) (key : Bytes) (a : ℕ)
    → IsSound s
    → get_elem? s.threads i ≡ some (waiting key a)
    → (s.mutex.heap a).locked ≡ false
    → IsSound (move s (set_locked s.mutex a true) i (holding key a))
unfolding set_locked
acquire-IsSound s i key a inv h free = record {
  mapped =
      mapped_move s s.mutex.locks i (holding key a)
        (λ j p key' a' after before. inv.mapped j p key' a' before)
        (λ key' a' e. inv.mapped i (waiting key a) key' a' h e);
  entry = λ key' a' e. entry a' (inv.entry key' a' e);
  injective = inv.injective;
}
  where
    entry :
        (a' : ℕ) → IsEntry s a' → IsEntry (move s (set_locked s.mutex a true) i (holding key a)) a'
    entry a' n = record {
      counted = omega (
        arith,
        refs-locked s.mutex.heap a a' true,
        count-set (uses a') s.threads i (waiting key a) (holding key a) h,
        n.counted,
      );
      used = omega (arith, refs-locked s.mutex.heap a a' true, n.used);
      made = n.made;
      exclusive = omega (
        arith,
        locked-true s.mutex.heap a a' free,
        count-set (holds a') s.threads i (waiting key a) (holding key a) h,
        n.exclusive,
      );
    }

-- The mutex of a goroutine between lock and unlock is locked.
locked_held :
    (s : System) (i : ℕ) (key : Bytes) (a : ℕ)
    → IsSound s
    → get_elem? s.threads i ≡ some (holding key a)
    → (s.mutex.heap a).locked ≡ true
locked_held s i key a inv h =
    let n = inv.entry key a (inv.mapped i (holding key a) key a h refl) in
    let held = count-at (holds a) s.threads i (holding key a) h (same_number a) in
    let exclusive = n.exclusive in
    elim (Bool-cases (s.mutex.heap a).locked) [
      | inl e ↦ e
      | inr e ↦ absurd (omega (arith, rw e at exclusive, held))
    ]

pub release-IsSound :
    (s : System) (i : ℕ) (key : Bytes) (a : ℕ)
    → IsSound s
    → get_elem? s.threads i ≡ some (holding key a)
    → IsSound (move s (set_locked s.mutex a false) i (releasing key a))
unfolding set_locked
release-IsSound s i key a inv h = record {
  mapped =
      mapped_move s s.mutex.locks i (releasing key a)
        (λ j p key' a' after before. inv.mapped j p key' a' before)
        (λ key' a' e. inv.mapped i (holding key a) key' a' h e);
  entry = λ key' a' e. entry a' (inv.entry key' a' e);
  injective = inv.injective;
}
  where
    entry :
        (a' : ℕ)
        → IsEntry s a'
        → IsEntry (move s (set_locked s.mutex a false) i (releasing key a)) a'
    entry a' n = record {
      counted = omega (
        arith,
        refs-locked s.mutex.heap a a' false,
        count-set (uses a') s.threads i (holding key a) (releasing key a) h,
        n.counted,
      );
      used = omega (arith, refs-locked s.mutex.heap a a' false, n.used);
      made = n.made;
      exclusive = omega (
        arith,
        locked-false s.mutex.heap a a' (locked_held s i key a inv h),
        count-set (holds a') s.threads i (holding key a) (releasing key a) h,
        n.exclusive,
      );
    }
