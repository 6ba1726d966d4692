-- ===== src/Endpoint/SocketCan/Ordered.antt =====
-- pkg/endpoint/socketcanendpoint/socketcanendpoint.go: frames of high priority keep their order.
use n2k.Prelude.{suc, ◌≡◌, refl, sym, ap, subst, ◌∙◌, List, [], ◌∷◌, ◌++◌, All, append_assoc}
use n2k.Converter.{Frame}
use n2k.Endpoint.SocketCan.{
  Writer, Stage, SocketCan, new_socket_can, Event, Step, Run, look, check_end, end_context, stamp,
  is_over,
}
use n2k.Endpoint.SocketCan.Sound.{IsSound, IsHigh, IsLow, IsAlone, All-middle}
use n2k.Endpoint.SocketCan.Reachable.{Run-new_socket_can-IsSound}
use n2k.Endpoint.SocketCan.Balance.{
  IsBalanced, entry, exit, pick, pick-append, held, frames, inside, same, grown, silent, left,
  offer-IsBalanced, requeue-IsBalanced, write_queued_frame-IsBalanced, takes, look_at-IsBalanced,
  free_writer, held-check, nothing,
}

-- What is not inside does not matter.
moved :
    (s s' t : SocketCan) (es : List Event)
    → inside s' ≡ inside s
    → IsBalanced s' es t
    → IsBalanced s es t
unfolding IsBalanced
moved s s' t es e b = sym (ap (λ (r : List Frame). r ++ pick entry es) e) ∙ b

Step-IsBalanced : {s t : SocketCan} {es : List Event} → Step s es t → IsSound s → IsBalanced s es t
unfolding check_end end_context look
Step-IsBalanced {s} (Step.enter f now free none e) v = rw (none, e) (same s _ refl)
Step-IsBalanced {s} (Step.offers done_first item xs ys at none e) v =
    rw (none, e)
      (moved s (record s { entered = xs ++ ys }) _ _ refl
        (offer-IsBalanced done_first item (record s { entered = xs ++ ys })))
Step-IsBalanced {s} (Step.unblock item xs ys at room none e) v =
    let (high, rest) = All-middle IsHigh xs ys item (subst (All IsHigh) at v.blocked_high) in
    rw (none, e)
      (grown item s (record s { blocked = xs ++ ys; high = s.high ++ (item ∷ []) }) high refl refl)
Step-IsBalanced {s} (Step.give_up item xs ys at done none e) v =
    rw (none, e) (silent (Event.refused item.frame) s _ refl refl refl)
Step-IsBalanced {s} (Step.checks here none e) v =
    rw (none, e) (free_writer s _ (ap held here) (held-check (is_over s)))
Step-IsBalanced {s} (Step.looks now here none e) v =
    rw (none, e) (look_at-IsBalanced now s.high s v.all_high here refl)
Step-IsBalanced {s} (Step.takes_high now item items here at none e) v =
    rw (none, e) (takes now item items s v.all_high (ap held here) at)
Step-IsBalanced {s} (Step.takes_low now item items here at none e) v =
    let low : IsLow item × All IsLow items = subst (All IsLow) at v.all_low in
    rw (none, e)
      (same s (record s { low = items; writer = Writer.sending (stamp now item) })
        (ap (λ (r : List Frame). r ++ frames s.high)
          (ap held here ∙ sym (nothing item.frame low.0))))
Step-IsBalanced {s} (Step.ends here over none e) v =
    rw (none, e) (free_writer s Writer.gone (ap held here) refl)
Step-IsBalanced {s} (Step.writes answer now later item here none e) v =
    rw (none, e) (write_queued_frame-IsBalanced answer now later item s here)
Step-IsBalanced {s} (Step.retries item here none e) v =
    rw (none, e)
      (same s (record s { writer = Writer.sending (record item { attempt = suc item.attempt }) })
        (ap (λ (w : Writer). held w ++ frames s.high) here))
Step-IsBalanced {s} (Step.abandons item here over none e) v =
    rw (none, e)
      (left (Event.abandoned item.frame) item s (record s { writer = Writer.top }) refl refl
        (ap held here) refl refl)
Step-IsBalanced {s} (Step.requeues end_first item r xs ys at none e) v =
    let (low, rest) =
      All-middle (λ x. IsLow x.0) xs ys (item, r)
        (subst (All (λ x. IsLow x.0)) at v.requeued_low) in
    rw (none, e)
      (moved s (record s { requeued = xs ++ ys }) _ _ refl
        (requeue-IsBalanced end_first item r (record s { requeued = xs ++ ys }) low))
Step-IsBalanced {s} (Step.forgets item r xs ys at over none e) v =
    let (low, rest) =
      All-middle (λ x. IsLow x.0) xs ys (item, r)
        (subst (All (λ x. IsLow x.0)) at v.requeued_low) in
    rw (none, e) (silent (Event.abandoned item.frame) s _ refl (nothing item.frame low) refl)
Step-IsBalanced {s} (Step.begins resting free none e) v = rw (none, e) (same s _ refl)
Step-IsBalanced {s} (Step.start_fails here none e) v = rw (none, e) (same s _ refl)
Step-IsBalanced {s} (Step.starts here free none e) v = rw (none, e) (same s _ refl)
Step-IsBalanced {s} (Step.spawns here none e) v =
    let alone : s.writer ≡ Writer.gone = subst (λ x. IsAlone x s.writer) here v.alone in
    rw (none, e)
      (same s (record s { writer = Writer.top; run = suc s.run; stage = Stage.reading })
        (ap (λ (w : Writer). held w ++ frames s.high) alone))
Step-IsBalanced {s} (Step.channel_ends here none e) v = rw (none, e) (same s _ refl)
Step-IsBalanced {s} (Step.stops here none e) v = rw (none, e) (same s _ refl)
Step-IsBalanced {s} (Step.joins here gone none e) v = rw (none, e) (same s _ refl)
Step-IsBalanced {s} (Step.nothing_to_stop here gone none e) v = rw (none, e) (same s _ refl)
Step-IsBalanced {s} (Step.context_ends r none e) v = rw (none, e) (same s _ refl)
Step-IsBalanced {s} (Step.closes none e) v = rw (none, e) (same s _ refl)
Step-IsBalanced {s} (Step.close_ends free none e) v = rw (none, e) (same s _ refl)

-- In every state that steps of WriteFrame's callers, the writer, `Run`, `Close` and the contexts lead to from a
-- new endpoint, the frames of high priority that its queue accepted are, in this order, those that the channel
-- took or failed on or that were given up at the end of their writer, then the one that the writer has, then
-- those in the high queue.
pub Run-keeps_order :
    (t : SocketCan) (es : List Event)
    → Run new_socket_can es t
    → pick entry es ≡ pick exit es ++ (held t.writer ++ frames t.high)
unfolding IsBalanced
Run-keeps_order t es Run.here = refl
Run-keeps_order t all (Run.next {t = u} {ds = ds} es fs r st e) =
    let before = Run-keeps_order u ds r in
    let step = Step-IsBalanced st (Run-new_socket_can-IsSound u ds r) in
    ap (λ (x : List Event). pick entry x) e
    ∙ pick-append entry ds fs
    ∙ ap (λ (x : List Frame). x ++ pick entry fs) before
    ∙ append_assoc (pick exit ds) (inside u) (pick entry fs)
    ∙ ap (λ (x : List Frame). pick exit ds ++ x) step
    ∙ sym (append_assoc (pick exit ds) (pick exit fs) (inside t))
    ∙ ap (λ (x : List Frame). x ++ inside t)
        (sym (pick-append exit ds fs) ∙ ap (λ (x : List Event). pick exit x) (sym e))
