-- ===== src/Jobs/Queue/Claim.antt =====
-- Which job ClaimNext takes (internal/jobs/queue.go).
use opentrace.Base.{
  ℕ, ◌<◌, ◌≤◌, ◌≡◌, ◌⊎◌, inl, inr, refl, sym, subst, ◌∙◌, arith, Bytes, ◌↔◌, bytes_eq, bytes_eq-eq,
  bytes_eq_refl, Bool, true, false, ◌&&◌, ◌||◌, ltb, ◌==◌, ==_iff, Option, none, some,
  if◌then◌else◌, Bool-cases,
}
use opentrace.Jobs.Queue.{
  Status, pending, running, completed, failed, dead, is_pending, Job, Table, update_row, is_due,
  precedes, select_next, start_job, claimed, claim_next,
}
use opentrace.Jobs.Queue.Search.{Found, select_next-Found}

-- What ClaimNext leaves and gives.
abbrev pub Taken : Table → Bytes → ℕ → Table → Option (ℕ × Job) → Type 0
Taken t queue now t' none =
    (t' ≡ t) × ((k : ℕ) (j : Job) → k < t.next_id → t.rows k ≡ some j → is_due queue now j ≡ false)
Taken t queue now t' (some (id, j')) =
    (j : Job) × (t.rows id ≡ some j)
    × (is_due queue now j ≡ true)
    × (j' ≡ start_job now j)
    × (id < t.next_id)
    × ((k : ℕ) (i : Job)
        → k < t.next_id
        → t.rows k ≡ some i
        → (is_due queue now i && precedes i j) ≡ false)
    × ((k : ℕ) → t'.rows k ≡ (if k == id then some j' else t.rows k))

claimed-Taken :
    (t : Table) (queue : Bytes) (now : ℕ) (best : Option (ℕ × Job))
    → Found t.rows queue now t.next_id best
    → Taken t queue now (claimed t now best).0 (claimed t now best).1
claimed-Taken t queue now none h = (refl, h)
claimed-Taken t queue now (some (id, j)) (low, there, due, best) =
    (j, there, due, refl, low, best, λ k. row k)
  where
    row :
        (k : ℕ)
        → (update_row t id (start_job now)).rows k
          ≡ (if k == id then some (start_job now j) else t.rows k)
    row k = elim (Bool-cases (k == id)) [
      | inl e ↦
          let same : k ≡ id = (==_iff k id).0 e in
          let there' : t.rows k ≡ some j = rw (sym same) at there in rw (e, there') refl
      | inr e ↦ rw e refl
    ]

claim_next-Taken :
    (t : Table) (queue : Bytes) (now : ℕ)
    → Taken t queue now (claim_next t queue now).0 (claim_next t queue now).1
unfolding claim_next
claim_next-Taken t queue now =
    claimed-Taken t queue now (select_next t.rows queue now t.next_id)
      (select_next-Found t.rows queue now t.next_id)

-- The job that is taken is one that was due.
pub claim_next-due :
    (t : Table) (queue : Bytes) (now id : ℕ) (j' : Job)
    → (claim_next t queue now).1 ≡ some (id, j')
    → Taken t queue now (claim_next t queue now).0 (some (id, j'))
claim_next-due t queue now id j' e =
    subst (Taken t queue now (claim_next t queue now).0) e (claim_next-Taken t queue now)

claimed-next_id :
    (t : Table) (now : ℕ) (best : Option (ℕ × Job)) → (claimed t now best).0.next_id ≡ t.next_id
claimed-next_id t now none = refl
claimed-next_id t now (some (id, j)) = refl

pub claim_next-next_id :
    (t : Table) (queue : Bytes) (now : ℕ) → (claim_next t queue now).0.next_id ≡ t.next_id
unfolding claim_next
claim_next-next_id t queue now = claimed-next_id t now (select_next t.rows queue now t.next_id)

by_order : (p q a b : ℕ) → (ltb q p || (p == q && ltb a b)) ≡ false → (p < q) ⊎ ((p ≡ q) × (b ≤ a))
by_order p q a b h = ground arith

-- A row that does not precede the chosen one has a lower priority, or the same and is no older.
in_order :
    (due : Bool) (i j : Job)
    → (due && precedes i j) ≡ false
    → (due ≡ false)
      ⊎ ((i.priority < j.priority) ⊎ ((i.priority ≡ j.priority) × (j.created_at ≤ i.created_at)))
in_order false i j e = inl refl
in_order true i j e = inr (by_order i.priority j.priority i.created_at j.created_at e)

-- A row that ClaimNext may take.
abbrev pub IsWaiting : Bytes → ℕ → Job → Type 0
IsWaiting queue now j = (j.queue ≡ queue) × (j.status ≡ pending) × (j.run_at ≤ now)

is_pending-eq : (s : Status) → is_pending s ≡ true → s ≡ pending
is_pending-eq pending h = refl
is_pending-eq running h = absurd cc
is_pending-eq completed h = absurd cc
is_pending-eq failed h = absurd cc
is_pending-eq dead h = absurd cc

is_due-iff-IsWaiting :
    (queue : Bytes) (now : ℕ) (j : Job) → (is_due queue now j ≡ true) ↔ IsWaiting queue now j
is_due-iff-IsWaiting queue now j = (
  λ h. (
    bytes_eq-eq j.queue queue (ground arith),
    is_pending-eq j.status (ground arith),
    ground arith,
  ),
  λ (same, waits, due).
      let named : bytes_eq j.queue queue ≡ true = rw same (bytes_eq_refl queue) in
      let marked : is_pending j.status ≡ true = rw waits refl in ground (arith, named, marked),
)

not-IsWaiting :
    (queue : Bytes) (now : ℕ) (j : Job) → is_due queue now j ≡ false → ¬ IsWaiting queue now j
not-IsWaiting queue now j h w = absurd (let due = (is_due-iff-IsWaiting queue now j).1 w in cc)

-- Where ClaimNext takes a job, its row was in the queue, pending and due by its time, and what it
-- gives is the row with the status running and the time of its start; every row in the table that
-- is in the queue, pending and due has a lower priority, or the same priority and was created no
-- earlier; and every other row is as it was, while that of the job is what it gives.
pub claim_next-first :
    (t : Table) (queue : Bytes) (now id k : ℕ) (j' i : Job)
    → (claim_next t queue now).1 ≡ some (id, j')
    → k < t.next_id
    → t.rows k ≡ some i
    → (j : Job) × (t.rows id ≡ some j)
      × IsWaiting queue now j
      × (j' ≡ record j { status = running; started_at = some now })
      × ((¬ IsWaiting queue now i)
          ⊎ ((i.priority < j.priority)
              ⊎ ((i.priority ≡ j.priority) × (j.created_at ≤ i.created_at))))
      × ((claim_next t queue now).0.rows k ≡ (if k == id then some j' else some i))
claim_next-first t queue now id k j' i e below at_k =
    let (j, there, due, started, low, best, rows) = claim_next-due t queue now id j' e in
    (
      j,
      there,
      (is_due-iff-IsWaiting queue now j).0 due,
      started,
      elim (in_order (is_due queue now i) i j (best k i below at_k)) [
        | inl undue ↦ inl (not-IsWaiting queue now i undue)
        | inr ordered ↦ inr ordered
      ],
      rows k ∙ rw at_k refl,
    )
