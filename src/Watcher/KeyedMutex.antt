-- ===== src/Watcher/KeyedMutex.antt =====
-- watch_evaluator.go: keyedMutex. The critical sections of its own mutex run one at a time, so each
-- is one step, and so are Lock and Unlock of a key's mutex.
pub mod Count
pub mod Invariant
pub mod Enter
pub mod Leave
pub mod Exclusion
mod Tests
use opentrace.Base.{
  ℕ, ◌+◌, ◌-◌, ◌≡◌, List, [], ◌∷◌, Bytes, bytes_eq, Bool, true, false, ◌==◌, Option, none, some,
  if◌then◌else◌, get_elem?, set, replicate,
}

-- The sync.Mutex of a refCountedMutex as its flag.
pub record RefCountedMutex : Type 0 where
  pub locked : Bool
  pub refs : ℕ

-- The map, and the objects that its pointers are the addresses of.
pub record KeyedMutex : Type 0 where
  pub locks : Bytes → Option ℕ
  pub heap : ℕ → RefCountedMutex
  -- The next free address.
  pub fresh : ℕ

abbrev pub put_lock : (Bytes → Option ℕ) → Bytes → Option ℕ → Bytes → Option ℕ
put_lock locks key v = λ k. if bytes_eq k key then v else locks k

abbrev pub store : (ℕ → RefCountedMutex) → ℕ → RefCountedMutex → ℕ → RefCountedMutex
store heap a m = λ b. if b == a then m else heap b

abbrev pub new_mutex : RefCountedMutex
new_mutex = record { locked = false; refs = 0 }

-- `if !ok { m = &refCountedMutex{}; k.locks[key] = m }`
abbrev pub find_or_make : KeyedMutex → Bytes → Option ℕ → KeyedMutex × ℕ
find_or_make k key none = (
  record {
    locks = put_lock k.locks key (some k.fresh);
    heap = store k.heap k.fresh new_mutex;
    fresh = k.fresh + 1;
  },
  k.fresh,
)
find_or_make k key (some a) = (k, a)

-- `m.refs++` and `m.refs--`
abbrev pub add_ref : KeyedMutex → ℕ → KeyedMutex
add_ref k a =
    let m = k.heap a in record k { heap = store k.heap a (record m { refs = m.refs + 1 }) }

abbrev pub drop_ref : KeyedMutex → ℕ → KeyedMutex
drop_ref k a =
    let m = k.heap a in record k { heap = store k.heap a (record m { refs = m.refs - 1 }) }

-- The critical section of lock: the mutex to wait for.
unfoldable pub lock_section : KeyedMutex → Bytes → KeyedMutex × ℕ
lock_section k key = let (k', a) = find_or_make k key (k.locks key) in (add_ref k' a, a)

unfoldable pub set_locked : KeyedMutex → ℕ → Bool → KeyedMutex
set_locked k a locked =
    let m = k.heap a in record k { heap = store k.heap a (record m { locked = locked }) }

-- The critical section of the function that lock returns.
unfoldable pub unlock_section : KeyedMutex → Bytes → ℕ → KeyedMutex
unlock_section k key a =
    let k' = drop_ref k a in
    if (k'.heap a).refs == 0 then record k' { locks = put_lock k'.locks key none } else k'

-- Where a goroutine is: outside, before m.mu.Lock, between lock and unlock, behind m.mu.Unlock.
pub data Place : Type 0 where
  idle : Place
  waiting holding releasing : Bytes → ℕ → Place

pub record System : Type 0 where
  pub mutex : KeyedMutex
  pub threads : List Place

abbrev pub move : System → KeyedMutex → ℕ → Place → System
move s k i p = record { mutex = k; threads = set s.threads i p }

-- One step of one goroutine.
pub data Step (s : System) : System → Type 0 where
  enter :
      (i : ℕ) (key : Bytes)
      → get_elem? s.threads i ≡ some idle
      → Step s (move s (lock_section s.mutex key).0 i (waiting key (lock_section s.mutex key).1))
  acquire :
      (i : ℕ) (key : Bytes) (a : ℕ)
      → get_elem? s.threads i ≡ some (waiting key a)
      → (s.mutex.heap a).locked ≡ false
      → Step s (move s (set_locked s.mutex a true) i (holding key a))
  release :
      (i : ℕ) (key : Bytes) (a : ℕ)
      → get_elem? s.threads i ≡ some (holding key a)
      → Step s (move s (set_locked s.mutex a false) i (releasing key a))
  leave :
      (i : ℕ) (key : Bytes) (a : ℕ)
      → get_elem? s.threads i ≡ some (releasing key a)
      → Step s (move s (unlock_section s.mutex key a) i idle)

abbrev pub no_mutexes : KeyedMutex
no_mutexes = record { locks = λ k. none; heap = λ a. new_mutex; fresh = 0 }

abbrev pub start : ℕ → System
start n = record { mutex = no_mutexes; threads = replicate n idle }

-- The states that `n` goroutines reach from the zero value.
pub data Reach (n : ℕ) : System → Type 0 where
  first : Reach n (start n)
  step : {s t : System} → Reach n s → Step s t → Reach n t
