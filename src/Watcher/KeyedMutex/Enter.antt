-- ===== src/Watcher/KeyedMutex/Enter.antt =====
-- The critical section of lock keeps a keyedMutex sound (internal/watcher/watch_evaluator.go).
use opentrace.Base.{
  ℕ, ◌+◌, ◌<◌, ◌≡◌, ◌⊎◌, inl, inr, refl, sym, ap, subst, ◌∙◌, arith, Bytes, bytes_eq, bytes_eq-eq,
  bytes_eq_refl, true, false, ◌==◌, ==_iff, Option, none, some, get_elem?, Bool-cases, Option-cases,
}
use opentrace.Watcher.KeyedMutex.{
  RefCountedMutex, put_lock, store, new_mutex, find_or_make, add_ref, lock_section, Place, idle,
  waiting, holding, releasing, System, move,
}
use opentrace.Watcher.KeyedMutex.Count.{one_if, count-set, count-none}
use opentrace.Watcher.KeyedMutex.Invariant.{
  same_number, refs-more, locked-refs, claim, uses, holds, IsEntry, IsSound, mapped_move,
}

uses-claim : (a : ℕ) (p : Place) → uses a p ≡ true → (key : Bytes) × (claim p ≡ some (key, a))
uses-claim a idle h = absurd cc
uses-claim a (waiting key b) h = (key, ap (λ (x : ℕ). some (key, x)) ((==_iff b a).0 h))
uses-claim a (holding key b) h = (key, ap (λ (x : ℕ). some (key, x)) ((==_iff b a).0 h))
uses-claim a (releasing key b) h = (key, ap (λ (x : ℕ). some (key, x)) ((==_iff b a).0 h))

pub claim-uses : (a : ℕ) (p : Place) (key : Bytes) → claim p ≡ some (key, a) → uses a p ≡ true
claim-uses a idle key h = absurd cc
claim-uses a (waiting k b) key h = let e : b ≡ a = cc in rw e (same_number a)
claim-uses a (holding k b) key h = let e : b ≡ a = cc in rw e (same_number a)
claim-uses a (releasing k b) key h = let e : b ≡ a = cc in rw e (same_number a)

holds-uses : (a : ℕ) (p : Place) → uses a p ≡ false → holds a p ≡ false
holds-uses a idle h = refl
holds-uses a (waiting key b) h = refl
holds-uses a (holding key b) h = h
holds-uses a (releasing key b) h = refl

module _ (s : System) (i : ℕ) (key : Bytes) (inv : IsSound s) where
  -- No goroutine is at an address that is not in use yet.
  fresh_unused : (j : ℕ) (p : Place) → get_elem? s.threads j ≡ some p → uses s.mutex.fresh p ≡ false
  fresh_unused j p h = elim (Bool-cases (uses s.mutex.fresh p)) [
    | inr e ↦ e
    | inl e ↦
        let (k, c) = uses-claim s.mutex.fresh p e in
        let n = inv.entry k s.mutex.fresh (inv.mapped j p k s.mutex.fresh h c) in
        absurd (omega (arith, n.made))
  ]

  -- A place's own claim.
  own :
      (k : Bytes) (a : ℕ) (k' : Bytes) (a' : ℕ)
      → s.mutex.locks k ≡ some a
      → ◌≡◌ {A = Option (Bytes × ℕ)} (some (k, a)) (some (k', a'))
      → s.mutex.locks k' ≡ some a'
  own k a k' a' h e =
      let same_key : k ≡ k' = cc in let same : a ≡ a' = cc in rw (same_key, same) at h

  entered : Option ℕ → System
  entered o = let (k, a) = find_or_make s.mutex key o in move s (add_ref k a) i (waiting key a)

  enter_there :
      (a : ℕ)
      → get_elem? s.threads i ≡ some idle
      → s.mutex.locks key ≡ some a
      → IsSound (entered (some a))
  unfolding entered
  enter_there a h there = record {
    mapped =
        mapped_move s s.mutex.locks i (waiting key a)
          (λ j p key' a' after before. inv.mapped j p key' a' before)
          (λ key' a' e. own key a key' a' there e);
    entry = λ key' a' e. entry a' (inv.entry key' a' e);
    injective = inv.injective;
  }
    where
      entry : (a' : ℕ) → IsEntry s a' → IsEntry (move s (add_ref s.mutex a) i (waiting key a)) a'
      entry a' n = record {
        counted = omega (
          arith,
          refs-more s.mutex.heap a a',
          count-set (uses a') s.threads i idle (waiting key a) h,
          n.counted,
        );
        used = omega (arith, refs-more s.mutex.heap a a', n.used);
        made = n.made;
        exclusive =
            rw (locked-refs s.mutex.heap a a' ((s.mutex.heap a).refs + 1))
              (omega (arith, count-set (holds a') s.threads i idle (waiting key a) h, n.exclusive));
      }

  abbrev made_locks : Bytes → Option ℕ
  made_locks = put_lock s.mutex.locks key (some s.mutex.fresh)

  abbrev made_heap : ℕ → RefCountedMutex
  made_heap = store s.mutex.heap s.mutex.fresh new_mutex

  made_locks-old :
      (k : Bytes) (a : ℕ)
      → s.mutex.locks key ≡ none
      → s.mutex.locks k ≡ some a
      → made_locks k ≡ some a
  made_locks-old k a absent h = elim (Bool-cases (bytes_eq k key)) [
    | inl e ↦
        let same : k ≡ key = bytes_eq-eq k key e in
        absurd (let bad : none ≡ some a = sym absent ∙ (rw same at h) in cc)
    | inr e ↦ rw e h
  ]

  -- An entry of the new map is the new one or an old one.
  made_locks-cases :
      (k : Bytes) (a : ℕ)
      → made_locks k ≡ some a
      → ((k ≡ key) × (s.mutex.fresh ≡ a)) ⊎ (s.mutex.locks k ≡ some a)
  made_locks-cases k a h = elim (Bool-cases (bytes_eq k key)) [
    | inl e ↦ let h' : some s.mutex.fresh ≡ some a = rw e at h in inl (bytes_eq-eq k key e, cc)
    | inr e ↦ inr (rw e at h)
  ]

  made_heap-fresh : made_heap s.mutex.fresh ≡ new_mutex
  made_heap-fresh = rw (same_number s.mutex.fresh) refl

  made_heap-old : (a : ℕ) → a < s.mutex.fresh → made_heap a ≡ s.mutex.heap a
  made_heap-old a h = let e : (a == s.mutex.fresh) ≡ false = ground arith in rw e refl

  enter_new : get_elem? s.threads i ≡ some idle → s.mutex.locks key ≡ none → IsSound (entered none)
  unfolding entered
  enter_new h absent = record {
    mapped =
        mapped_move s made_locks i (waiting key f)
          (λ j p key' a' after before c.
            made_locks-old key' a' absent (inv.mapped j p key' a' before c))
          (λ key' a' e. new_claim key' a' e);
    entry = λ key' a' e. elim (made_locks-cases key' a' e) [
      | inl (same_key, same) ↦ subst (λ x. IsEntry (entered none) x) same new_entry
      | inr e ↦ old_entry a' (inv.entry key' a' e)
    ];
    injective =
        λ k k' a' e e'. injective k k' a' (made_locks-cases k a' e) (made_locks-cases k' a' e');
  }
    where
      f : ℕ
      f = s.mutex.fresh

      new_claim :
          (key' : Bytes) (a' : ℕ)
          → ◌≡◌ {A = Option (Bytes × ℕ)} (some (key, f)) (some (key', a'))
          → made_locks key' ≡ some a'
      new_claim key' a' e =
          let same_key : key ≡ key' = cc in
          let same : f ≡ a' = cc in
          let here : bytes_eq key' key ≡ true = rw same_key (bytes_eq_refl key') in
          let same_address : some f ≡ some a' = ap some same in rw here same_address

      new_entry : IsEntry (entered none) f
      new_entry = record {
        counted = omega (
          arith,
          refs-more made_heap f f,
          ap (λ (m : RefCountedMutex). m.refs) made_heap-fresh,
          count-set (uses f) s.threads i idle (waiting key f) h,
          count-none (uses f) s.threads fresh_unused,
        );
        used = omega (
          arith,
          refs-more made_heap f f,
          ap (λ (m : RefCountedMutex). m.refs) made_heap-fresh,
          ap one_if (same_number f),
        );
        made = omega arith;
        exclusive =
            rw (locked-refs made_heap f f ((made_heap f).refs + 1), made_heap-fresh)
              (omega (
                arith,
                count-set (holds f) s.threads i idle (waiting key f) h,
                count-none (holds f) s.threads (λ j p e. holds-uses f p (fresh_unused j p e)),
              ));
      }

      old_entry : (a' : ℕ) → IsEntry s a' → IsEntry (entered none) a'
      old_entry a' n =
          let apart : (f == a') ≡ false = let below = n.made in ground arith in
          record {
            counted = omega (
              arith,
              refs-more made_heap f a',
              ap (λ (m : RefCountedMutex). m.refs) (made_heap-old a' n.made),
              count-set (uses a') s.threads i idle (waiting key f) h,
              n.counted,
            );
            used = omega (
              arith,
              refs-more made_heap f a',
              ap (λ (m : RefCountedMutex). m.refs) (made_heap-old a' n.made),
              n.used,
            );
            made = omega (arith, n.made);
            exclusive =
                rw (locked-refs made_heap f a' ((made_heap f).refs + 1), made_heap-old a' n.made)
                  (omega
                    (arith, count-set (holds a') s.threads i idle (waiting key f) h, n.exclusive));
          }

      injective :
          (k k' : Bytes) (a' : ℕ)
          → ((k ≡ key) × (f ≡ a')) ⊎ (s.mutex.locks k ≡ some a')
          → ((k' ≡ key) × (f ≡ a')) ⊎ (s.mutex.locks k' ≡ some a')
          → k ≡ k'
      injective k k' a' (inl (e, same)) (inl (e', same')) = e ∙ sym e'
      injective k k' a' (inl (e, same)) (inr e') = absurd (omega (arith, (inv.entry k' a' e').made))
      injective k k' a' (inr e) (inl (e', same')) = absurd (omega (arith, (inv.entry k a' e).made))
      injective k k' a' (inr e) (inr e') = inv.injective k k' a' e e'

  pub enter-IsSound :
      get_elem? s.threads i ≡ some idle
      → IsSound (move s (lock_section s.mutex key).0 i (waiting key (lock_section s.mutex key).1))
  unfolding lock_section entered
  enter-IsSound h = elim (Option-cases (s.mutex.locks key)) [
    | inl e ↦ rw e (enter_new h e)
    | inr (a, e) ↦ rw e (enter_there a h e)
  ]
