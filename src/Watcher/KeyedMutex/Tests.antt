-- ===== src/Watcher/KeyedMutex/Tests.antt =====
-- Two goroutines that evaluate one watch, through their steps at the keyedMutex.
use opentrace.Base.{
  ℕ, zero, suc, ◌≡◌, ◌⊎◌, refl, Bytes, codes, bytes_eq, true, false, none, some, get_elem?,
}
use opentrace.Watcher.KeyedMutex.{
  Place, idle, waiting, holding, releasing, System, move, lock_section, set_locked, unlock_section,
  enter, acquire, release, leave, start, Reach, first, step,
}
use opentrace.Watcher.KeyedMutex.Invariant.{holds}
use opentrace.Watcher.KeyedMutex.Exclusion.{mutual_exclusion, no_leak, no_deadlock}

abbrev watch : Bytes
watch = codes "w1"

abbrev after_enter : System → ℕ → System
after_enter s i =
    move s (lock_section s.mutex watch).0 i (waiting watch (lock_section s.mutex watch).1)

abbrev after_acquire : System → ℕ → System
after_acquire s i = move s (set_locked s.mutex 0 true) i (holding watch 0)

abbrev after_release : System → ℕ → System
after_release s i = move s (set_locked s.mutex 0 false) i (releasing watch 0)

abbrev after_leave : System → ℕ → System
after_leave s i = move s (unlock_section s.mutex watch 0) i idle

-- One holds the lock, the other waits.
abbrev contended : System
contended = after_enter (after_acquire (after_enter (start 2) 0) 0) 1

contended_reach : Reach 2 contended
unfolding lock_section set_locked bytes_eq
contended_reach =
    step (step (step first (enter 0 watch refl)) (acquire 0 watch 0 refl refl)) (enter 1 watch refl)

-- Both are done.
abbrev finished : System
finished =
    after_leave (after_release (after_acquire (after_leave (after_release contended 0) 0) 1) 1) 1

finished_reach : Reach 2 finished
unfolding lock_section set_locked unlock_section bytes_eq
finished_reach =
    step
      (step
        (step (step (step contended_reach (release 0 watch 0 refl)) (leave 0 watch 0 refl))
          (acquire 1 watch 0 refl refl))
        (release 1 watch 0 refl))
      (leave 1 watch 0 refl)

finished_idle : (i : ℕ) (p : Place) → get_elem? finished.threads i ≡ some p → p ≡ idle
unfolding lock_section
finished_idle zero p h = cc
finished_idle (suc zero) p h = cc
finished_idle (suc (suc i)) p h = absurd cc

mutual_exclusion_example : ◌≡◌ {A = ℕ} 0 0
unfolding lock_section set_locked bytes_eq
mutual_exclusion_example = mutual_exclusion 2 contended 0 0 watch 0 0 contended_reach refl refl

no_leak_example : finished.mutex.locks watch ≡ none
no_leak_example = no_leak 2 finished watch finished_reach finished_idle

no_deadlock_example :
    ((contended.mutex.heap 0).locked ≡ false)
    ⊎ ((j : ℕ) × (p : Place) × (get_elem? contended.threads j ≡ some p) × (holds 0 p ≡ true))
unfolding lock_section set_locked bytes_eq
no_deadlock_example = no_deadlock 2 contended 1 watch 0 contended_reach refl
