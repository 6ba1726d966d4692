-- ===== src/Service/Queue/Fifo.antt =====
-- internal/n2kinternal/n2kinternal.go, `messageQueue`: what any sequence of its operations answers, against a
-- plain list of the messages that wait.
use n2k.Prelude.{
  ℕ, zero, suc, ◌≡◌, refl, sym, ap, inl, inr, Bool, true, false, List, [], ◌∷◌, ◌++◌, none, ltb,
  ◌==◌, if◌then◌else◌, Bool-cases, length, get_elem?, drop, arith,
}
use n2k.Service.Queue.{
  QueuedMessage, MessageQueue, MessageQueueStats, Dequeued, got, wait, panic, age_of, depth_locked,
  oldest_age_locked, max_duration, stats_locked, signal, enqueue_locked, enqueue_if_current,
  dequeue, discard,
}
use n2k.Service.Queue.Compact.{
  IsValid, waiting, length-waiting, grown, grown-IsValid, waiting-grown, signal-IsValid,
  waiting-signal, dequeue_lem, discard-IsValid,
}

pub data Op (M : Type 0) : Type 0 where
  offer : QueuedMessage M → ℕ → ℕ → Op M
  take_next throw_away : Op M

pub data Answer (M : Type 0) : Type 0 where
  offered : Bool → MessageQueueStats → Answer M
  taken : QueuedMessage M → Answer M
  empty panicked : Answer M
  thrown_away : ℕ → Answer M

module _ {M : Type 0} where
  unfoldable pub after_dequeue : MessageQueue M → Dequeued M → MessageQueue M × Answer M
  after_dequeue q (got m q') = (q', taken m)
  after_dequeue q wait = (q, empty)
  after_dequeue q panic = (q, panicked)

  -- An operation of the code: `take_next` is a round of `dequeue`.
  unfoldable pub apply : Op M → MessageQueue M → MessageQueue M × Answer M
  apply (offer m max_age processing_age) q =
      let ((accepted, seen), q') = enqueue_if_current m max_age processing_age q in
      (q', offered accepted seen)
  apply take_next q = after_dequeue q (dequeue q)
  apply throw_away q = let (n, q') = discard q in (q', thrown_away n)

  unfoldable pub run : List (Op M) → MessageQueue M → MessageQueue M × List (Answer M)
  run [] q = (q, [])
  run (o ∷ os) q = let (q', a) = apply o q in let (end, answers) = run os q' in (end, a ∷ answers)

  list_stats : ℕ → ℕ → List (QueuedMessage M) → MessageQueueStats
  list_stats now processing_age xs =
      let age = age_of now (get_elem? xs 0) in
      record { depth = length xs; oldest_age = age; lag = max_duration age processing_age }

  -- The same on the list: a message is refused exactly where the lag is above the limit.
  pub list_apply : Op M → List (QueuedMessage M) → List (QueuedMessage M) × Answer M
  list_apply (offer m max_age processing_age) xs =
      let seen = list_stats m.enqueued_at processing_age xs in
      if ltb max_age seen.lag
      then (xs, offered false seen)
      else (xs ++ (m ∷ []), offered true (list_stats m.enqueued_at processing_age (xs ++ (m ∷ []))))
  list_apply take_next [] = ([], empty)
  list_apply take_next (m ∷ xs) = (xs, taken m)
  list_apply throw_away xs = ([], thrown_away (length xs))

  pub list_run : List (Op M) → List (QueuedMessage M) → List (QueuedMessage M) × List (Answer M)
  list_run [] xs = (xs, [])
  list_run (o ∷ os) xs =
      let (xs', a) = list_apply o xs in let (end, answers) = list_run os xs' in (end, a ∷ answers)

  first_lem : (h : ℕ) (xs : List (QueuedMessage M)) → get_elem? (drop h xs) 0 ≡ get_elem? xs h
  first_lem zero xs = refl
  first_lem (suc h) [] = refl
  first_lem (suc h) (x ∷ xs) = first_lem h xs

  first_none : (xs : List (QueuedMessage M)) → length xs ≡ 0 → get_elem? xs 0 ≡ none
  first_none [] e = refl
  first_none (x ∷ xs) e = absurd (omega arith)

  pub oldest_age_lem :
      (now : ℕ) (q : MessageQueue M)
      → oldest_age_locked now q ≡ age_of now (get_elem? (waiting q) 0)
  unfolding oldest_age_locked waiting
  oldest_age_lem now q = elim (Bool-cases (depth_locked q == 0)) [
    | inl e ↦ rw (e, first_none (waiting q) (ground (arith, length-waiting q)))
    | inr e ↦ rw e (ap (age_of now) (sym (first_lem q.head q.messages)))
  ]

  stats_lem :
      (now processing_age : ℕ) (q : MessageQueue M)
      → stats_locked now processing_age q ≡ list_stats now processing_age (waiting q)
  unfolding stats_locked list_stats
  stats_lem now processing_age q = rw (length-waiting q, oldest_age_lem now q)

  -- `o` leaves a valid queue, answers as on the list, and leaves the list.
  abbrev Refines : Op M → MessageQueue M → Type 0
  Refines o q =
      IsValid (apply o q).0 × (list_apply o (waiting q) ≡ (waiting (apply o q).0, (apply o q).1))

  module _ (m : QueuedMessage M) (max_age processing_age : ℕ) (q : MessageQueue M) where
    pub refused_lem :
        ltb max_age (stats_locked m.enqueued_at processing_age q).lag ≡ true
        → enqueue_if_current m max_age processing_age q
          ≡ ((false, stats_locked m.enqueued_at processing_age q), q)
    unfolding enqueue_if_current enqueue_locked
    refused_lem e = simp (enqueue_if_current, enqueue_locked, e)

    pub accepted_lem :
        ltb max_age (stats_locked m.enqueued_at processing_age q).lag ≡ false
        → enqueue_if_current m max_age processing_age q
          ≡ ((true, stats_locked m.enqueued_at processing_age (grown m q)), signal (grown m q))
    unfolding enqueue_if_current enqueue_locked
    accepted_lem e = simp (enqueue_if_current, enqueue_locked, e)

    offer_refused :
        ltb max_age (stats_locked m.enqueued_at processing_age q).lag ≡ true
        → IsValid q
        → Refines (offer m max_age processing_age) q
    unfolding apply list_apply
    offer_refused e v =
        let s = stats_lem m.enqueued_at processing_age q in
        rw (refused_lem e) (v, rw (sym s) (rw e (rw s refl)))

    offer_accepted :
        ltb max_age (stats_locked m.enqueued_at processing_age q).lag ≡ false
        → IsValid q
        → Refines (offer m max_age processing_age) q
    unfolding apply list_apply
    offer_accepted e v =
        let s = stats_lem m.enqueued_at processing_age q in
        rw (accepted_lem e) (
          signal-IsValid (grown m q) (grown-IsValid m q v),
          rw (sym s) (
              rw e (
                rw
                  (
                    waiting-signal,
                    stats_lem m.enqueued_at processing_age (grown m q),
                    waiting-grown m q v,
                  )
                  refl)),
        )

  take_next_lem : (q : MessageQueue M) → IsValid q → Refines take_next q
  unfolding apply list_apply after_dequeue
  take_next_lem q v = elim (dequeue_lem q v) [
    | inl (e, d) ↦ rw (d, e) (v, refl)
    | inr (m, q', d, e, v', n) ↦ rw (d, e) (v', refl)
  ]

  throw_away_lem : (q : MessageQueue M) → Refines throw_away q
  unfolding apply list_apply discard waiting
  throw_away_lem q = (discard-IsValid q, rw (sym (length-waiting q)) refl)

  apply-Refines : (o : Op M) (q : MessageQueue M) → IsValid q → Refines o q
  apply-Refines (offer m max_age processing_age) q v =
      elim (Bool-cases (ltb max_age (stats_locked m.enqueued_at processing_age q).lag)) [
        | inl e ↦ offer_refused m max_age processing_age q e v
        | inr e ↦ offer_accepted m max_age processing_age q e v
      ]
  apply-Refines take_next q v = take_next_lem q v
  apply-Refines throw_away q v = throw_away_lem q

  -- From a valid queue, every sequence of operations answers what it answers on the list of the messages
  -- that wait, and leaves a valid queue with the list that it leaves there.
  pub run_refines :
      (os : List (Op M)) (q : MessageQueue M)
      → IsValid q
      → IsValid (run os q).0 × ((waiting (run os q).0, (run os q).1) ≡ list_run os (waiting q))
  unfolding run list_run
  run_refines [] q v = (v, refl)
  run_refines (o ∷ os) q v =
      let (v', e) = apply-Refines o q v in
      let (w, f) = run_refines os (apply o q).0 v' in (w, rw (e, sym f))
