-- ===== src/Service/Lifecycle/Stopped.antt =====
-- internal/n2kinternal/n2kinternal.go: whatever Start, Stop, UpdateEndpoint and the goroutines do in turn.
use n2k.Prelude.{
  ℕ, ◌≡◌, ◌≢◌, refl, sym, ap, ◌∙◌, ◌⊎◌, inl, inr, true, false, List, ◌∷◌, ◌++◌, Option, none, some,
  Bool-cases, arith,
}
use n2k.Prelude.Fault.{some_inj}
use n2k.Service.Lifecycle.{
  Loop, Op, Lifecycle, Step, Steps, here, next, new_lifecycle, deactivate, cancel_run, mark_run,
  close_endpoint, cancel_option, close_option, finish_endpoint_run, to_stop, run_result, install,
  after_stop, done_option, with_loop,
}
use n2k.Service.Lifecycle.Live.{
  Frame, is_live, never, cancel_run-Frame, ended-Frame, mark_run-Frame, close_endpoint-Frame,
  cancel_option-Frame, close_option-Frame, deactivate-Frame, with_loop-Frame, rest-Frame,
  Frame-trans, Frame-refl,
}
use n2k.Service.Lifecycle.Quiet.{
  op_run, op_target, IsCurrent, Inv, Frame-Inv, begin_start-Inv, go-Inv, finish-Inv, silence-Inv,
  install-Frame, later-Inv, same-Inv, to_stop_lem, free-Inv,
}

after_stop_lem :
    (ep : Option ℕ) → (op_run (after_stop ep) ≡ none) × (op_target (after_stop ep) ≡ none)
unfolding op_run op_target
after_stop_lem none = (refl, refl)
after_stop_lem (some ep) = (refl, refl)

-- The goroutine goes on behind the deactivation.
loop-Inv :
    (s t : Lifecycle) (r : ℕ) (l : Loop)
    → Frame s t
    → t.op ≡ s.op
    → t.loops r ≢ Loop.unborn
    → (is_live (t.loops r) ≡ true → is_live l ≡ true)
    → Inv s
    → Inv (with_loop r l t)
loop-Inv s t r l f e started stays i =
    same-Inv s (with_loop r l t) (Frame-trans s t _ f (with_loop-Frame r l t started stays)) e i

-- The operation goes on with the same run or the same target.
op-Inv :
    (s t : Lifecycle) (o : Op)
    → Frame s t
    → op_run o ≡ op_run s.op
    → op_target o ≡ op_target s.op
    → Inv s
    → Inv (record t { op = o })
op-Inv s t o f a b i =
    later-Inv s t o t.watchers t.processor t.pending f (λ r h. sym a ∙ h) (λ x h. inl (sym b ∙ h)) i

close_endpoint_rest :
    (r : ℕ) (e : List ℕ) (s : Lifecycle)
    → ((close_endpoint r e s).op ≡ s.op) × ((close_endpoint r e s).loops ≡ s.loops)
unfolding close_endpoint
close_endpoint_rest r e s = ground arith

-- A loop that is past its deactivation does not go live.
behind :
    (s : Lifecycle) (r : ℕ) (l : Loop)
    → is_live (s.loops r) ≡ false
    → is_live (s.loops r) ≡ true
    → is_live l ≡ true
behind s r l past h = absurd (never (sym past ∙ h))

aimed :
    (s : Lifecycle) (x : Option ℕ) → to_stop s ≡ x → (s.endpoint_run ≡ none) ⊎ (s.endpoint_run ≡ x)
aimed s x e = elim (to_stop_lem s) [ inl n ↦ inl n | inr n ↦ inr (n ∙ e) ]

Step-Inv : {s t : Lifecycle} → Step s t → Inv s → Inv t
unfolding op_run op_target is_live cancel_run deactivate mark_run install finish_endpoint_run
Step-Inv {s} (Step.start_begin h k e) i = rw e (begin_start-Inv s k i)
Step-Inv {s} (Step.start_fails r x h e) i =
    rw e (op-Inv s s (Op.failed r x) (Frame-refl s) (sym (ap op_run h)) (sym (ap op_target h)) i)
Step-Inv {s} (Step.start_stops r x h k e) i =
    rw e (op-Inv s s (Op.failed r x) (Frame-refl s) (sym (ap op_run h)) (sym (ap op_target h)) i)
Step-Inv {s} (Step.start_goes r h k e) i = rw e (go-Inv r s h k i)
Step-Inv {s} (Step.start_closes r x y h e) i = rw e (
    op-Inv s (close_endpoint r y s) _ (close_endpoint-Frame r y s) (sym (ap op_run h))
      (sym (ap op_target h)) i)
Step-Inv {s} (Step.start_finishes r x h e) i = rw e (
    free-Inv (finish_endpoint_run r x s) Op.free _ refl refl
      (finish-Inv r x s (ap is_live (i.starts_unborn r (ap op_run h))) i))
Step-Inv {s} (Step.parent_ends r e) i = rw e (same-Inv s _ (ended-Frame r s) refl i)
Step-Inv {s} (Step.cancel_current r h e) i = rw e (
    later-Inv s (cancel_run r s) s.op s.watchers s.processor ((s.runs r).output ∷ s.pending)
      (cancel_run-Frame r s) (λ q a. a) (λ x a. inl a) i)
Step-Inv {s} (Step.cancel_deactivates o os h e) i = rw e (
    later-Inv s (deactivate o s) s.op s.watchers s.processor os (deactivate-Frame o s) (λ q a. a)
      (λ x a. inl a) i)
Step-Inv {s} (Step.stop_marks ep h e) i =
    let marked = cancel_option (to_stop s) s in
    let o = Op.stopping (to_stop s) s.endpoint_output ep in
    rw e (
      later-Inv s marked o marked.watchers marked.processor marked.pending
        (cancel_option-Frame (to_stop s) s) (λ r a. absurd cc) (λ x a. inr (aimed s x (some_inj a)))
        i)
Step-Inv {s} (Step.stop_silences r o ep h e) i = rw e (
    op-Inv s (deactivate o s) _ (deactivate-Frame o s) (sym (ap op_run h)) (sym (ap op_target h)) i)
Step-Inv {s} (Step.stop_closes r ep x h e) i = rw e (
    op-Inv s (close_option r x s) _ (close_option-Frame r x s) (sym (ap op_run h))
      (sym (ap op_target h)) i)
Step-Inv {s} (Step.stop_waits r ep h k e) i =
    rw e (op-Inv s s _ (Frame-refl s) (sym (ap op_run h)) (sym (ap op_target h)) i)
Step-Inv {s} (Step.stop_ends r ep h e) i =
    rw e (free-Inv s (after_stop ep) false ((after_stop_lem ep).0) ((after_stop_lem ep).1) i)
Step-Inv {s} (Step.update_installs ep h e) i =
    rw e (Frame-Inv s (install ep s) (install-Frame ep s) (λ r a. absurd cc) (λ x a. absurd cc) i)
Step-Inv {s} (Step.run_returns r x h e) i =
    rw e (
      loop-Inv s (mark_run r s) r (Loop.marked x) (mark_run-Frame r s) refl (λ u. cc) (λ l. refl) i)
Step-Inv {s} (Step.run_silences r x h e) i = rw e (silence-Inv r x s h i)
Step-Inv {s} (Step.run_drains r x y h k e) i = rw e (
    loop-Inv s s r _ (Frame-refl s) refl (λ u. cc)
      (behind s r (Loop.drained (x ++ y)) (ap is_live h)) i)
Step-Inv {s} (Step.run_closes r x y h e) i =
    let closed = close_endpoint r y s in
    let same : closed.loops r ≡ s.loops r =
      ap (λ (f : ℕ → Loop). f r) ((close_endpoint_rest r y s).1) in
    rw e (
      loop-Inv s closed r _ (close_endpoint-Frame r y s) ((close_endpoint_rest r y s).0) (λ u. cc)
        (behind closed r (Loop.closed_loop x (closed.runs r).close_err) (ap is_live (same ∙ h))) i)
Step-Inv {s} (Step.run_stops_processor r x y h e) i = rw e (
    loop-Inv s (record s { processor = false }) r _ (rest-Frame s s.op s.watchers false s.pending)
      refl (λ u. cc) (behind s r (Loop.stopped_loop x y) (ap is_live h)) i)
Step-Inv {s} (Step.run_finishes r x y h e) i =
    let ended = finish_endpoint_run r (run_result r x y s) s in
    let past = ap is_live h in
    rw e (
      loop-Inv ended ended r Loop.over (Frame-refl ended) refl (λ u. cc) (behind s r Loop.over past)
        (finish-Inv r (run_result r x y s) s past i))
Step-Inv {s} (Step.watcher_marks r h k e) i = rw e (
    later-Inv s (mark_run r s) s.op _ s.processor s.pending (mark_run-Frame r s) (λ q a. a)
      (λ x a. inl a) i)
Step-Inv {s} (Step.watcher_silences r h e) i = rw e (
    later-Inv s (deactivate (s.runs r).output s) s.op _ s.processor s.pending
      (deactivate-Frame (s.runs r).output s) (λ q a. a) (λ x a. inl a) i)
Step-Inv {s} (Step.watcher_closes r x h e) i =
    let closed = close_endpoint r x s in
    let same = sym ((close_endpoint_rest r x s).0) in
    rw e (
      later-Inv s closed closed.op _ closed.processor closed.pending (close_endpoint-Frame r x s)
        (λ q a. ap op_run same ∙ a) (λ y a. inl (ap op_target same ∙ a)) i)
Step-Inv {s} (Step.watcher_leaves r h k e) i =
    rw e (later-Inv s s s.op _ s.processor s.pending (Frame-refl s) (λ q a. a) (λ x a. inl a) i)

Steps-Inv : {s t : Lifecycle} → Steps s t → Inv s → Inv t
Steps-Inv here i = i
Steps-Inv (next r st) i = Step-Inv st (Steps-Inv r i)

new_lifecycle-Inv : (ep : ℕ) → Inv (new_lifecycle ep)
unfolding new_lifecycle op_run op_target
new_lifecycle-Inv ep = record {
  owned = λ o h. absurd (never h);
  starts_unborn = λ r h. absurd cc;
  starts_known = λ r h. absurd cc;
  later_unborn = λ r h. refl;
  current_open = λ r h. absurd cc;
  target_current = λ x h. absurd cc;
}

-- However Start, Stop, UpdateEndpoint, the goroutines of the runs and the ends of contexts interleave, an output that
-- passes messages on is that of the one run that goes on, and the goroutine of this run has not come to its
-- deactivation.
pub Steps-IsCurrent :
    (ep : ℕ) (s : Lifecycle) (o : ℕ)
    → Steps (new_lifecycle ep) s
    → s.active o ≡ true
    → IsCurrent s o
Steps-IsCurrent ep s o r h = (Steps-Inv r (new_lifecycle-Inv ep)).owned o h

not_done :
    (s : Lifecycle) (t : Option ℕ)
    → Inv s
    → s.endpoint_run ≡ t
    → done_option t s ≡ true
    → s.endpoint_run ≡ none
not_done s none i e d = e
not_done s (some r) i e d = absurd (never (sym (i.current_open r e) ∙ d))

no_current : (s : Lifecycle) (o : ℕ) → Inv s → s.endpoint_run ≡ none → s.active o ≡ false
unfolding IsCurrent
no_current s o i n = elim (Bool-cases (s.active o)) [
  | inl a ↦ let (r, c, _, _) = i.owned o a in absurd (clash r c)
  | inr a ↦ a
]
  where
    clash : (r : ℕ) → s.endpoint_run ≡ some r → ⊥
    clash r c = cc

-- However the steps interleave, once Stop or UpdateEndpoint has waited for the run that it stops, no run goes on and
-- no output passes messages on.
pub stop_waits_quiet :
    (ep : ℕ) (s : Lifecycle) (r new : Option ℕ) (o : ℕ)
    → Steps (new_lifecycle ep) s
    → s.op ≡ Op.closed_op r new
    → done_option r s ≡ true
    → (s.endpoint_run ≡ none) × (s.active o ≡ false)
unfolding op_target
stop_waits_quiet ep s r new o steps h d =
    let i = Steps-Inv steps (new_lifecycle-Inv ep) in
    let ended : s.endpoint_run ≡ none = elim (i.target_current r (ap op_target h)) [
      | inl n ↦ n
      | inr n ↦ not_done s r i n d
    ] in
    (ended, no_current s o i ended)
