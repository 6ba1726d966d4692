-- ===== src/Service/Lifecycle/Tests.antt =====
-- Runs of internal/n2kinternal/n2kinternal.go: a service is started, its endpoint's Run returns, and Stop comes.
use n2k.Prelude.{◌≡◌, refl, inr, false, [], ◌∷◌, none, some}
use n2k.Service.Lifecycle.{
  Loop, Op, Lifecycle, Step, Steps, here, next, new_lifecycle, begin_start, go, start_stopped,
  to_stop, mark_run, cancel_run, deactivate, close_endpoint, close_option, finish_endpoint_run,
  run_result, with_op, with_loop,
}
use n2k.Service.Lifecycle.Quiet.{IsCurrent}
use n2k.Service.Lifecycle.Stopped.{Steps-IsCurrent, stop_waits_quiet}

abbrev begun : Lifecycle
begun = begin_start (new_lifecycle 7)

abbrev going : Lifecycle
going = go 0 begun

going-Steps : Steps (new_lifecycle 7) going
unfolding new_lifecycle begin_start start_stopped
going-Steps =
    let first : Steps (new_lifecycle 7) begun = next here (Step.start_begin refl refl refl) in
    next first (Step.start_goes 0 refl refl refl)

Steps-IsCurrent_example : IsCurrent going 0
unfolding new_lifecycle begin_start go
Steps-IsCurrent_example = Steps-IsCurrent 7 going 0 going-Steps refl

abbrev returned : Lifecycle
returned = with_loop 0 (Loop.marked (3 ∷ [])) (mark_run 0 going)

abbrev silenced : Lifecycle
silenced = with_loop 0 (Loop.quiet (3 ∷ [])) (deactivate 0 returned)

abbrev drained : Lifecycle
drained = with_loop 0 (Loop.drained (3 ∷ [])) silenced

abbrev closed : Lifecycle
closed =
    with_loop 0 (Loop.closed_loop (3 ∷ []) ((close_endpoint 0 [] drained).runs 0).close_err)
      (close_endpoint 0 [] drained)

abbrev unprocessed : Lifecycle
unprocessed =
    with_loop 0 (Loop.stopped_loop (3 ∷ []) ((close_endpoint 0 [] drained).runs 0).close_err)
      (record closed { processor = false })

abbrev finished : Lifecycle
finished = with_loop 0 Loop.over (
    finish_endpoint_run 0
      (run_result 0 (3 ∷ []) ((close_endpoint 0 [] drained).runs 0).close_err unprocessed)
      unprocessed)

finished-Steps : Steps (new_lifecycle 7) finished
unfolding new_lifecycle begin_start go mark_run deactivate close_endpoint
finished-Steps =
    let s1 : Steps (new_lifecycle 7) returned =
      next going-Steps (Step.run_returns 0 (3 ∷ []) refl refl) in
    let s2 : Steps (new_lifecycle 7) silenced = next s1 (Step.run_silences 0 (3 ∷ []) refl refl) in
    let s3 : Steps (new_lifecycle 7) drained =
      next s2 (Step.run_drains 0 (3 ∷ []) [] refl (inr refl) refl) in
    let s4 : Steps (new_lifecycle 7) closed = next s3 (Step.run_closes 0 (3 ∷ []) [] refl refl) in
    let s5 : Steps (new_lifecycle 7) unprocessed =
      next s4 (Step.run_stops_processor 0 (3 ∷ []) _ refl refl) in
    next s5 (Step.run_finishes 0 (3 ∷ []) _ refl refl)

result_of_run : (finished.runs 0).result ≡ 3 ∷ []
unfolding new_lifecycle begin_start go mark_run deactivate close_endpoint finish_endpoint_run
    run_result
result_of_run = refl

abbrev stopped : Lifecycle
stopped = with_op (Op.closed_op (some 0) none) (
    close_option (some 0) [] (
      with_op (Op.silenced (some 0) none)
        (deactivate 0 (with_op (Op.stopping (some 0) 0 none) (cancel_run 0 finished)))))

stopped-Steps : Steps (new_lifecycle 7) stopped
unfolding new_lifecycle begin_start go mark_run deactivate close_endpoint finish_endpoint_run
    to_stop cancel_run
stopped-Steps =
    let s1 : Steps (new_lifecycle 7)
        (with_op (Op.stopping (some 0) 0 none) (cancel_run 0 finished)) =
      next finished-Steps (Step.stop_marks none refl refl) in
    let s2 : Steps (new_lifecycle 7) (
        with_op (Op.silenced (some 0) none)
          (deactivate 0 (with_op (Op.stopping (some 0) 0 none) (cancel_run 0 finished)))) =
      next s1 (Step.stop_silences (some 0) 0 none refl refl) in
    next s2 (Step.stop_closes (some 0) none [] refl refl)

stop_waits_quiet_example : (stopped.endpoint_run ≡ none) × (stopped.active 0 ≡ false)
unfolding new_lifecycle begin_start go mark_run deactivate close_endpoint finish_endpoint_run
    to_stop cancel_run
stop_waits_quiet_example = stop_waits_quiet 7 stopped (some 0) none 0 stopped-Steps refl refl

-- The endpoint was closed once, by the goroutine of the run.
closed_once : (stopped.runs 0).closes ≡ 1
unfolding new_lifecycle begin_start go mark_run deactivate close_endpoint finish_endpoint_run
    to_stop cancel_run
closed_once = refl
