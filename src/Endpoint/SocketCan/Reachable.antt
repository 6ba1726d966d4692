-- ===== src/Endpoint/SocketCan/Reachable.antt =====
-- pkg/endpoint/socketcanendpoint/socketcanendpoint.go: every step keeps the endpoint sound.
use n2k.Prelude.{suc, ◌≡◌, ◌≢◌, refl, subst, Bool, true, false, List, ◌++◌, All, arith}
use n2k.Endpoint.SocketCan.{
  Writer, Stage, SocketCan, new_socket_can, Event, Step, Run, check_end, end_context, stamp,
  is_over,
}
use n2k.Endpoint.SocketCan.Sound.{
  IsHigh, IsLow, IsAlone, IsRunning, IsSound, All-middle, goes-IsSound, took-IsSound,
  took_low-IsSound, look_lem, write_queued_frame-IsSound, waits-IsSound, stage-IsSound,
  grown-IsSound, checked-IsSound, offer-IsSound, requeue-IsSound,
}

idle-gone :
    (b : Bool) (st : Stage) (w : Writer)
    → b ≡ false
    → IsRunning b st
    → IsAlone st w
    → w ≡ Writer.gone
idle-gone false st w e idle alone = subst (λ x. IsAlone x w) idle alone
idle-gone true st w e running alone = absurd (cc)

still_running : (b : Bool) (st st' : Stage) → IsRunning b st → st ≢ Stage.idle → IsRunning b st'
still_running false st st' idle busy = absurd (busy idle)
still_running true st st' running busy = tt

pub Step-IsSound : {s t : SocketCan} {es : List Event} → Step s es t → IsSound s → IsSound t
unfolding check_end end_context
Step-IsSound {s} (Step.enter f now free es e) v =
    rw e (waits-IsSound _ s.blocked s.requeued s v v.blocked_high v.requeued_low)
Step-IsSound {s} (Step.offers done_first item xs ys at es e) v = rw e (
    offer-IsSound done_first item (record s { entered = xs ++ ys })
      (waits-IsSound (xs ++ ys) s.blocked s.requeued s v v.blocked_high v.requeued_low))
Step-IsSound {s} (Step.unblock item xs ys at room es e) v =
    let (high, rest) = All-middle IsHigh xs ys item (subst (All IsHigh) at v.blocked_high) in
    rw e (
      grown-IsSound item (record s { blocked = xs ++ ys })
        (waits-IsSound s.entered (xs ++ ys) s.requeued s v rest v.requeued_low) high room)
Step-IsSound {s} (Step.give_up item xs ys at done es e) v = rw e (
    waits-IsSound s.entered (xs ++ ys) s.requeued s v
      (All-middle IsHigh xs ys item (subst (All IsHigh) at v.blocked_high)).1 v.requeued_low)
Step-IsSound {s} (Step.checks here es e) v = rw e (checked-IsSound (is_over s) s v (λ g. cc))
Step-IsSound {s} (Step.looks now here es e) v = rw e (look_lem now s v here)
Step-IsSound {s} (Step.takes_high now item items here at es e) v = rw e (
    goes-IsSound (Writer.sending (stamp now item)) (record s { high = items })
      (took-IsSound item items s v at) (λ g. cc) tt)
Step-IsSound {s} (Step.takes_low now item items here at es e) v = rw e (
    goes-IsSound (Writer.sending (stamp now item)) (record s { low = items })
      (took_low-IsSound item items s v at) (λ g. cc) tt)
Step-IsSound {s} (Step.ends here over es e) v = rw e (goes-IsSound Writer.gone s v (λ g. cc) tt)
Step-IsSound {s} (Step.writes answer now later item here es e) v =
    rw e (write_queued_frame-IsSound answer now later item s v here)
Step-IsSound {s} (Step.retries item here es e) v = rw e (goes-IsSound _ s v (λ g. cc) tt)
Step-IsSound {s} (Step.abandons item here over es e) v =
    rw e (goes-IsSound Writer.top s v (λ g. cc) tt)
Step-IsSound {s} (Step.requeues end_first item r xs ys at es e) v =
    let (low, rest) =
      All-middle (λ x. IsLow x.0) xs ys (item, r)
        (subst (All (λ x. IsLow x.0)) at v.requeued_low) in
    rw e (
      requeue-IsSound end_first item r (record s { requeued = xs ++ ys }) low
        (waits-IsSound s.entered s.blocked (xs ++ ys) s v v.blocked_high rest))
Step-IsSound {s} (Step.forgets item r xs ys at over es e) v =
    let (low, rest) =
      All-middle (λ x. IsLow x.0) xs ys (item, r)
        (subst (All (λ x. IsLow x.0)) at v.requeued_low) in
    rw e (waits-IsSound s.entered s.blocked (xs ++ ys) s v v.blocked_high rest)
Step-IsSound {s} (Step.begins resting free es e) v = rw e (
    stage-IsSound s.closed s.done true Stage.starting s.writer s.run s.ended s v v.delayed
      (idle-gone s.running s.stage s.writer resting v.run v.alone) tt)
Step-IsSound {s} (Step.start_fails here es e) v = rw e (
    stage-IsSound s.closed s.done false Stage.idle s.writer s.run s.ended s v v.delayed
      (subst (λ x. IsAlone x s.writer) here v.alone) refl)
Step-IsSound {s} (Step.starts here free es e) v = rw e (
    stage-IsSound s.closed s.done s.running Stage.started s.writer s.run s.ended s v v.delayed
      (subst (λ x. IsAlone x s.writer) here v.alone)
      (still_running s.running s.stage Stage.started v.run (λ g. cc)))
Step-IsSound {s} (Step.spawns here es e) v = rw e (
    stage-IsSound s.closed s.done s.running Stage.reading Writer.top (suc s.run) s.ended s v tt tt
      (still_running s.running s.stage Stage.reading v.run (λ g. cc)))
Step-IsSound {s} (Step.channel_ends here es e) v = rw e (
    stage-IsSound s.closed s.done s.running Stage.stopping s.writer s.run s.ended s v v.delayed tt
      (still_running s.running s.stage Stage.stopping v.run (λ g. cc)))
Step-IsSound {s} (Step.stops here es e) v = rw e (
    stage-IsSound s.closed s.done s.running Stage.joining s.writer s.run _ s v v.delayed tt
      (still_running s.running s.stage Stage.joining v.run (λ g. cc)))
Step-IsSound {s} (Step.joins here gone es e) v =
    rw e (
      stage-IsSound s.closed s.done false Stage.idle s.writer s.run s.ended s v v.delayed gone refl)
Step-IsSound {s} (Step.nothing_to_stop here gone es e) v =
    rw e (
      stage-IsSound s.closed s.done false Stage.idle s.writer s.run s.ended s v v.delayed gone refl)
Step-IsSound {s} (Step.context_ends r es e) v =
    rw e
      (stage-IsSound s.closed s.done s.running s.stage s.writer s.run _ s v v.delayed v.alone v.run)
Step-IsSound {s} (Step.closes es e) v =
    rw e (
      stage-IsSound true s.done s.running s.stage s.writer s.run s.ended s v v.delayed v.alone
        v.run)
Step-IsSound {s} (Step.close_ends free es e) v = rw e (
    stage-IsSound s.closed true s.running s.stage s.writer s.run s.ended s v v.delayed v.alone
      v.run)

Run-IsSound : {s t : SocketCan} {es : List Event} → IsSound s → Run s es t → IsSound t
Run-IsSound v Run.here = v
Run-IsSound v (Run.next es fs r st e) = Step-IsSound st (Run-IsSound v r)

new-IsSound : IsSound new_socket_can
new-IsSound = record {
  high_fits = omega arith;
  low_fits = omega arith;
  all_high = tt;
  all_low = tt;
  blocked_high = tt;
  requeued_low = tt;
  delayed = tt;
  alone = refl;
  run = refl;
}

-- In every state that steps of WriteFrame's callers, the writer, `Run`, `Close` and the contexts lead to from a
-- new endpoint, each queue holds at most 2048 frames; those in the high queue, those whose caller waits for room
-- and one that keeps the writer in its timer are of high priority, those in the low queue and those that wait
-- to come back to it of low; and nothing writes while `Run` is not past `Start` or has returned.
pub Run-new_socket_can-IsSound :
    (t : SocketCan) (es : List Event) → Run new_socket_can es t → IsSound t
Run-new_socket_can-IsSound t es r = Run-IsSound new-IsSound r
