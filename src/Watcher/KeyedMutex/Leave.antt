-- ===== src/Watcher/KeyedMutex/Leave.antt =====
-- The function that lock returns keeps a keyedMutex sound (internal/watcher/watch_evaluator.go).
use opentrace.Base.{
  ℕ, ◌-◌, ◌≤◌, ◌≡◌, ◌⊎◌, inl, inr, refl, sym, ap, subst, ◌∙◌, arith, Bytes, bytes_eq, bytes_eq-eq,
  bytes_eq_refl, true, false, ◌==◌, ==_iff, none, some, get_elem?, set, Bool-cases,
}
use opentrace.Watcher.KeyedMutex.{
  KeyedMutex, put_lock, drop_ref, unlock_section, Place, idle, releasing, System, move,
}
use opentrace.Watcher.KeyedMutex.Count.{one_if, count, count-set, count-at}
use opentrace.Watcher.KeyedMutex.Invariant.{
  eq_or_ne, refs-less, locked-refs, claim, uses, holds, IsEntry, IsSound, mapped_move,
}
use opentrace.Watcher.KeyedMutex.Enter.{claim-uses}

module _ (s : System) (i : ℕ) (key : Bytes) (inv : IsSound s) where
  module _ (a : ℕ) (h : get_elem? s.threads i ≡ some (releasing key a)) where
    dropped : KeyedMutex
    dropped = drop_ref s.mutex a

    gone : System
    gone = move s (record (drop_ref s.mutex a) { locks = put_lock s.mutex.locks key none }) i idle

    left : System
    left = move s (drop_ref s.mutex a) i idle

    there : s.mutex.locks key ≡ some a
    there = inv.mapped i (releasing key a) key a h refl

    -- An entry that is still used, after the step.
    kept_counted :
        (a' : ℕ) → IsEntry s a' → (dropped.heap a').refs ≡ count (uses a') (set s.threads i idle)
    unfolding dropped
    kept_counted a' n = omega (
      arith,
      refs-less s.mutex.heap a a',
      count-set (uses a') s.threads i (releasing key a) idle h,
      n.counted,
    )

    kept_exclusive :
        (a' : ℕ)
        → IsEntry s a'
        → one_if (dropped.heap a').locked ≡ count (holds a') (set s.threads i idle)
    unfolding dropped
    kept_exclusive a' n =
        rw (locked-refs s.mutex.heap a a' ((s.mutex.heap a).refs - 1))
          (omega (arith, count-set (holds a') s.threads i (releasing key a) idle h, n.exclusive))

    left-IsSound : ((dropped.heap a).refs == 0) ≡ false → IsSound left
    unfolding left dropped
    left-IsSound more = record {
      mapped =
          mapped_move s s.mutex.locks i idle
            (λ j p key' a' after before. inv.mapped j p key' a' before) (λ key' a' e. absurd cc);
      entry = λ key' a' e. entry a' (inv.entry key' a' e) (eq_or_ne a a');
      injective = inv.injective;
    }
      where
        entry : (a' : ℕ) → IsEntry s a' → (a ≡ a') ⊎ ((a' == a) ≡ false) → IsEntry left a'
        entry a' n d = record {
          counted = kept_counted a' n;
          used = elim d [
            | inl e ↦
                let positive : 1 ≤ (dropped.heap a).refs = ground arith in
                subst (λ x. 1 ≤ (dropped.heap x).refs) e positive
            | inr e ↦
                let apart : (a == a') ≡ false = ground arith in
                omega (arith, refs-less s.mutex.heap a a', n.used, ap one_if apart)
          ];
          made = n.made;
          exclusive = kept_exclusive a' n;
        }

    -- An entry of the smaller map was there, under another key.
    gone_locks :
        (k : Bytes) (a' : ℕ)
        → put_lock s.mutex.locks key none k ≡ some a'
        → (s.mutex.locks k ≡ some a') × (bytes_eq k key ≡ false)
    gone_locks k a' e = elim (Bool-cases (bytes_eq k key)) [
      | inl same ↦ absurd (let bad : none ≡ some a' = rw same at e in cc)
      | inr other ↦ (rw other at e, other)
    ]

    gone-IsSound : ((dropped.heap a).refs == 0) ≡ true → IsSound gone
    unfolding gone dropped
    gone-IsSound last = record {
      mapped =
          mapped_move s (put_lock s.mutex.locks key none) i idle others (λ key' a' e. absurd cc);
      entry = λ key' a' e.
          let (e', other) = gone_locks key' a' e in entry key' a' (inv.entry key' a' e') e' other;
      injective =
          λ k k' a' e e'. inv.injective k k' a' (gone_locks k a' e).0 (gone_locks k' a' e').0;
    }
      where
        nobody : count (uses a) (set s.threads i idle) ≡ 0
        nobody =
            omega (
              arith,
              kept_counted a (inv.entry key a there),
              (==_iff (dropped.heap a).refs 0).0 last,
            )

        others :
            (j : ℕ) (p : Place) (k : Bytes) (a' : ℕ)
            → get_elem? (set s.threads i idle) j ≡ some p
            → get_elem? s.threads j ≡ some p
            → claim p ≡ some (k, a')
            → put_lock s.mutex.locks key none k ≡ some a'
        others j p k a' after before c = elim (Bool-cases (bytes_eq k key)) [
          | inr other ↦ rw other (inv.mapped j p k a' before c)
          | inl same ↦
              let same_key : k ≡ key = bytes_eq-eq k key same in
              let at_key : s.mutex.locks key ≡ some a' =
                rw same_key at (inv.mapped j p k a' before c) in
              let same_mutex : some a ≡ some a' = sym there ∙ at_key in
              let address : a ≡ a' = cc in
              absurd (
                omega (
                  arith,
                  count-at (uses a) (set s.threads i idle) j p after
                      (rw address (claim-uses a' p k c)),
                  nobody,
                ))
        ]

        entry :
            (key' : Bytes) (a' : ℕ)
            → IsEntry s a'
            → s.mutex.locks key' ≡ some a'
            → bytes_eq key' key ≡ false
            → IsEntry gone a'
        entry key' a' n e other = record {
          counted = kept_counted a' n;
          used = elim (eq_or_ne a a') [
            | inl same ↦
                let at_a : s.mutex.locks key' ≡ some a = rw same e in
                let same_key : key' ≡ key = inv.injective key' key a at_a there in
                absurd
                  (let bad : true ≡ false = sym (bytes_eq_refl key) ∙ (rw same_key at other) in cc)
            | inr e ↦
                let apart : (a == a') ≡ false = ground arith in
                omega (arith, refs-less s.mutex.heap a a', n.used, ap one_if apart)
          ];
          made = n.made;
          exclusive = kept_exclusive a' n;
        }

    pub leave-IsSound : IsSound (move s (unlock_section s.mutex key a) i idle)
    unfolding unlock_section gone left dropped
    leave-IsSound = elim (Bool-cases ((dropped.heap a).refs == 0)) [
      | inl e ↦ rw e (gone-IsSound e)
      | inr e ↦ rw e (left-IsSound e)
    ]
