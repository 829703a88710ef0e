-- ===== src/Engine/Ring/Tail.antt =====
-- What a reader gets who takes a snapshot of a ring buffer (engine/ring.go) and subscribes to it.
use opentrace.Base.{
  ℕ, ◌≤◌, ◌≡◌, refl, sym, ap, ◌∙◌, arith, List, [], ◌∷◌, ◌++◌, map, true, Option, some, none,
  length, take, take-append, take_all, ltb, ◌==◌, if◌then◌else◌, length-append, append_assoc,
  append-nil, Bool-cases, inl, inr,
}
use opentrace.Wal.Entry.{Entry}
use opentrace.Engine.Ring.{
  ring_size, channel_size, Subscriber, RingBuffer, new_ring_buffer, project, write_all, write_one,
  offer, push, subscribe, snapshot_and_subscribe,
}
use opentrace.Engine.Ring.Last.{last}
use opentrace.Engine.Ring.Refine.{push_all, pushed, snapshot-push_all}

-- The batches that wait for the subscriber with a number.
unfoldable pub waiting_of : ℕ → List Subscriber → Option (List (List Entry))
waiting_of id [] = none
waiting_of id (s ∷ ss) = let rest = waiting_of id ss in if s.id == id then some s.waiting else rest

write_all-subs : (es : List Entry) (rb : RingBuffer) → (write_all rb es).subs ≡ rb.subs
unfolding write_all
write_all-subs [] rb = refl
write_all-subs (e ∷ es) rb = write_all-subs es (write_one rb e)

-- What a channel holds once more batches were offered to it.
abbrev offered : List (List Entry) → List (List Entry) → List (List Entry)
offered waiting [] = waiting
offered waiting (batch ∷ batches) =
    offered (if ltb (length waiting) channel_size then waiting ++ (project batch ∷ []) else waiting)
      batches

take_full : (n : ℕ) (xs ys : List (List Entry)) → length xs ≡ n → take n (xs ++ ys) ≡ xs
take_full n xs ys e = rw (sym e) (take-append xs ys)

offered-take :
    (batches waiting : List (List Entry))
    → length waiting ≤ channel_size
    → offered waiting batches ≡ take channel_size (waiting ++ map project batches)
offered-take [] waiting le = rw (append-nil waiting) (sym (take_all waiting channel_size le))
offered-take (batch ∷ batches) waiting le = elim (Bool-cases (ltb (length waiting) channel_size)) [
  | inl fits ↦
      rw (fits, sym (append_assoc waiting (project batch ∷ []) (map project batches)))
        (offered-take batches (waiting ++ (project batch ∷ []))
          (ground (arith, length-append waiting (project batch ∷ []))))
  | inr full ↦
      let exact : length waiting ≡ channel_size = ground arith in
      rw full (
        offered-take batches waiting le
        ∙ take_full channel_size waiting (map project batches) exact
        ∙ sym (take_full channel_size waiting (project batch ∷ map project batches) exact))
]

waiting_of-offer :
    (batch : List Entry) (id : ℕ) (waiting : List (List Entry)) (ss : List Subscriber)
    → waiting_of id ss ≡ some waiting
    → waiting_of id (map (λ s. offer batch s) ss)
      ≡ some (if ltb (length waiting) channel_size then waiting ++ (batch ∷ []) else waiting)
unfolding waiting_of offer
waiting_of-offer batch id waiting [] h = absurd cc
waiting_of-offer batch id waiting (s ∷ ss) h = ground (arith, waiting_of-offer batch id waiting ss)

push_all-waiting_of :
    (batches : List (List Entry)) (rb : RingBuffer) (id : ℕ) (waiting : List (List Entry))
    → waiting_of id rb.subs ≡ some waiting
    → waiting_of id (push_all rb batches).subs ≡ some (offered waiting batches)
unfolding push
push_all-waiting_of [] rb id waiting h = h
push_all-waiting_of (batch ∷ batches) rb id waiting h =
    push_all-waiting_of batches (push rb batch) id
      (if ltb (length waiting) channel_size then waiting ++ (project batch ∷ []) else waiting)
      (rw (write_all-subs (project batch) rb)
        (waiting_of-offer (project batch) id waiting rb.subs h))

subscribed_first :
    (rb : RingBuffer) (batches : List (List Entry))
    → waiting_of rb.next_sub (push_all (subscribe rb).1 batches).subs
      ≡ some (take channel_size (map project batches))
unfolding subscribe waiting_of
subscribed_first rb batches =
    let same : (rb.next_sub == rb.next_sub) ≡ true = ground arith in
    push_all-waiting_of batches (subscribe rb).1 rb.next_sub [] (rw same refl)
    ∙ ap some (offered-take batches [] (omega arith))

-- For any batches pushed before and after SnapshotAndSubscribe, with nothing received in between:
-- the snapshot is the last 256 entries of the batches before, and the channel holds the first
-- sixteen batches after, projected and in their order.
pub snapshot_and_subscribe_lem :
    (earlier batches : List (List Entry))
    → let seen = snapshot_and_subscribe (push_all new_ring_buffer earlier) in
      (seen.0 ≡ last ring_size (pushed earlier))
      × (waiting_of seen.1 (push_all seen.2 batches).subs
          ≡ some (take channel_size (map project batches)))
unfolding snapshot_and_subscribe subscribe
snapshot_and_subscribe_lem earlier batches =
    (snapshot-push_all earlier, subscribed_first (push_all new_ring_buffer earlier) batches)
