-- ===== src/Service/Lifecycle/Quiet.antt =====
-- internal/n2kinternal/n2kinternal.go: an output is active only for the run that goes on, and Stop ends it.
use n2k.Prelude.{
  ℕ, ◌≤◌, ◌<◌, ◌≡◌, ◌≢◌, refl, sym, subst, ap, ◌∙◌, ◌⊎◌, inl, inr, Bool, true, false, List, Option,
  none, some, ◌==◌, ==_iff, ==_refl, ne→==, Bool-cases, Option-cases, if◌then◌else◌, arith,
}
use n2k.Prelude.Fault.{some_inj}
use n2k.Service.Lifecycle.{
  EndpointRun, Loop, Watcher, Op, Lifecycle, update, is_run, begin_start, start_stopped, go,
  finish_endpoint_run, to_stop, install, deactivate, with_loop,
}
use n2k.Service.Lifecycle.Live.{
  Frame, never, is_live, update_hit, update_miss, update_keeps, deactivate-Frame, rest-Frame,
  Frame-trans, Frame-refl,
}

-- The run that Start works on, and the target of Stop.
unfoldable pub op_run : Op → Option ℕ
op_run (Op.starting r) = some r
op_run (Op.failed r e) = some r
op_run (Op.finishing r e) = some r
op_run _ = none

unfoldable pub op_target : Op → Option (Option ℕ)
op_target (Op.stopping t o ep) = some t
op_target (Op.silenced t ep) = some t
op_target (Op.closed_op t ep) = some t
op_target (Op.waited t ep) = some t
op_target _ = none

-- Only the run that goes on has an active output, before it has passed its deactivation.
unfoldable pub IsCurrent : Lifecycle → ℕ → Type 0
IsCurrent s o =
    (r : ℕ) × (s.endpoint_run ≡ some r) × ((s.runs r).output ≡ o) × (is_live (s.loops r) ≡ true)

pub record Inv (s : Lifecycle) : Type 0 where
  pub owned : (o : ℕ) → s.active o ≡ true → IsCurrent s o
  pub starts_unborn : (r : ℕ) → op_run s.op ≡ some r → s.loops r ≡ Loop.unborn
  pub starts_known : (r : ℕ) → op_run s.op ≡ some r → r < s.run_count
  pub later_unborn : (r : ℕ) → s.run_count ≤ r → s.loops r ≡ Loop.unborn
  pub current_open : (r : ℕ) → s.endpoint_run ≡ some r → (s.runs r).done ≡ false
  pub target_current :
      (t : Option ℕ) → op_target s.op ≡ some t → (s.endpoint_run ≡ none) ⊎ (s.endpoint_run ≡ t)

pub Frame-Inv :
    (s t : Lifecycle)
    → Frame s t
    → ((r : ℕ) → op_run t.op ≡ some r → op_run s.op ≡ some r)
    → ((x : Option ℕ)
        → op_target t.op ≡ some x
        → (op_target s.op ≡ some x) ⊎ (s.endpoint_run ≡ none) ⊎ (s.endpoint_run ≡ x))
    → Inv s
    → Inv t
unfolding IsCurrent
Frame-Inv s t f starts targets i = record {
  owned = λ o h.
      let (r, c, out, l) = i.owned o (f.active o h) in
      (r, f.current ∙ c, f.outputs r ∙ out, f.live r l);
  starts_unborn = λ r h. f.unborn r (i.starts_unborn r (starts r h));
  starts_known = λ r h. omega (arith, f.count, i.starts_known r (starts r h));
  later_unborn = λ r h. f.unborn r (i.later_unborn r (omega (arith, f.count, h)));
  current_open = λ r h. f.dones r ∙ i.current_open r (sym f.current ∙ h);
  target_current = λ x h. elim (targets x h) [
    | inl e ↦ elim (i.target_current x e) [
      | inl n ↦ inl (f.current ∙ n)
      | inr n ↦ inr (f.current ∙ n)
    ]
    | inr (inl n) ↦ inl (f.current ∙ n)
    | inr (inr n) ↦ inr (f.current ∙ n)
  ];
}

is_run_lem : (r : ℕ) (o : Option ℕ) → is_run r o ≡ true → o ≡ some r
is_run_lem r none h = absurd cc
is_run_lem r (some q) h = ap some ((==_iff q r).0 h)

pub begin_start-Inv : (s : Lifecycle) → s.endpoint_run ≡ none → Inv s → Inv (begin_start s)
unfolding begin_start op_run op_target IsCurrent
begin_start-Inv s idle i = record {
  owned = λ o h. let (r, c, _, _) = i.owned o h in absurd (clash r c);
  starts_unborn = λ r h.
      subst (λ q. s.loops q ≡ Loop.unborn) (some_inj h) (i.later_unborn s.run_count (omega arith));
  starts_known = λ r h. omega (arith, some_inj h);
  later_unborn = λ r h. i.later_unborn r (omega arith);
  current_open = λ r h.
      ap (λ (x : EndpointRun). x.done)
        (update_hit s.runs s.run_count r _ ((==_iff r s.run_count).1 (sym (some_inj h))));
  target_current = λ x h. absurd cc;
}
  where
    clash : (r : ℕ) → s.endpoint_run ≡ some r → ⊥
    clash r c = cc

-- Start activates the output of the run that goes on.
go_current : (r : ℕ) (s : Lifecycle) → start_stopped r s ≡ false → s.endpoint_run ≡ some r
unfolding start_stopped
go_current r s h = is_run_lem r s.endpoint_run (ground arith)

pub go-Inv :
    (r : ℕ) (s : Lifecycle)
    → s.op ≡ Op.starting r
    → start_stopped r s ≡ false
    → Inv s
    → Inv (go r s)
unfolding go op_run op_target IsCurrent is_live
go-Inv r s h k i = record {
  owned = λ o a. elim (Bool-cases (o == (s.runs r).output)) [
    | inl e ↦ (
      r,
      go_current r s k,
      sym ((==_iff o (s.runs r).output).0 e),
      ap is_live (update_hit s.loops r r Loop.running (==_refl r)),
    )
    | inr e ↦
        let (q, c, out, l) =
          i.owned o (sym (update_miss s.active (s.runs r).output o true e) ∙ a) in
        (q, c, out, stays_live q l)
  ];
  starts_unborn = λ q a. absurd cc;
  starts_known = λ q a. absurd cc;
  later_unborn = λ q a. update_miss s.loops r q Loop.running (other_run q a) ∙ i.later_unborn q a;
  current_open = i.current_open;
  target_current = λ x a. absurd cc;
}
  where
    stays_live :
        (q : ℕ) → is_live (s.loops q) ≡ true → is_live (update s.loops r Loop.running q) ≡ true
    stays_live q l = elim (Bool-cases (q == r)) [
      | inl e ↦ ap is_live (update_hit s.loops r q Loop.running e)
      | inr e ↦ ap is_live (update_miss s.loops r q Loop.running e) ∙ l
    ]

    other_run : (q : ℕ) → s.run_count ≤ q → (q == r) ≡ false
    other_run q a = ne→== q r (λ e. absurd (omega (arith, e, a, i.starts_known r (ap op_run h))))

not_finished :
    (r q : ℕ) (o : Option ℕ)
    → (if is_run r o then none else o) ≡ some q
    → (o ≡ some q) × ((q == r) ≡ false)
not_finished r q none c = absurd cc
not_finished r q (some p) c = elim (Bool-cases (p == r)) [
  | inl e ↦ absurd cc
  | inr e ↦ ground arith
]

-- A run that has passed its deactivation is finished.
pub finish-Inv :
    (r : ℕ) (result : List ℕ) (s : Lifecycle)
    → is_live (s.loops r) ≡ false
    → Inv s
    → Inv (finish_endpoint_run r result s)
unfolding finish_endpoint_run IsCurrent
finish-Inv r result s past i = record {
  owned = λ o a.
      let (q, c, out, l) = i.owned o a in
      (
        q,
        kept q c l,
        update_keeps s.runs r q (finished) (λ (x : EndpointRun). x.output) refl ∙ out,
        l,
      );
  starts_unborn = i.starts_unborn;
  starts_known = i.starts_known;
  later_unborn = i.later_unborn;
  current_open = λ q c.
      let (before, differs) = still q c in
      ap (λ (x : EndpointRun). x.done) (update_miss s.runs r q finished differs)
      ∙ i.current_open q before;
  target_current = λ x a. elim (Bool-cases (is_run r s.endpoint_run)) [
    | inl e ↦ inl (rw e refl)
    | inr e ↦ elim (i.target_current x a) [ inl n ↦ inl (rw e n) | inr n ↦ inr (rw e n) ]
  ];
}
  where
    finished : EndpointRun
    finished = record (s.runs r) { cancelled = true; result = result; done = true }

    differ : (q : ℕ) → is_live (s.loops q) ≡ true → (q == r) ≡ false
    differ q l = ne→== q r (λ e. never (sym past ∙ ap (λ k. is_live (s.loops k)) (sym e) ∙ l))

    kept :
        (q : ℕ)
        → s.endpoint_run ≡ some q
        → is_live (s.loops q) ≡ true
        → (if is_run r s.endpoint_run then none else s.endpoint_run) ≡ some q
    kept q c l = rw (c, differ q l) refl

    still :
        (q : ℕ)
        → (if is_run r s.endpoint_run then none else s.endpoint_run) ≡ some q
        → (s.endpoint_run ≡ some q) × ((q == r) ≡ false)
    still q c = not_finished r q s.endpoint_run c

-- The output of a run whose Run has returned.
pub silence-Inv :
    (r : ℕ) (error : List ℕ) (s : Lifecycle)
    → s.loops r ≡ Loop.marked error
    → Inv s
    → Inv (with_loop r (Loop.quiet error) (deactivate (s.runs r).output s))
unfolding deactivate IsCurrent
silence-Inv r error s h i = record {
  owned = λ o a. elim (Bool-cases (o == (s.runs r).output)) [
    | inl e ↦ absurd (never (sym (update_hit s.active (s.runs r).output o false e) ∙ a))
    | inr e ↦
        let before = i.owned o (sym (update_miss s.active (s.runs r).output o false e) ∙ a) in
        (
          before.0,
          before.1,
          before.2,
          ap is_live
                (update_miss s.loops r before.0 (Loop.quiet error) (differs before.0 o before.2 e))
              ∙ before.3,
        )
  ];
  starts_unborn = λ q a. born q (i.starts_unborn q a);
  starts_known = i.starts_known;
  later_unborn = λ q a. born q (i.later_unborn q a);
  current_open = i.current_open;
  target_current = i.target_current;
}
  where
    started : s.loops r ≢ Loop.unborn
    started u = cc

    born : (q : ℕ) → s.loops q ≡ Loop.unborn → update s.loops r (Loop.quiet error) q ≡ Loop.unborn
    born q u = elim (Bool-cases (q == r)) [
      | inl e ↦ absurd (started (sym (ap s.loops ((==_iff q r).0 e)) ∙ u))
      | inr e ↦ update_miss s.loops r q (Loop.quiet error) e ∙ u
    ]

    differs :
        (q o : ℕ) → (s.runs q).output ≡ o → (o == (s.runs r).output) ≡ false → (q == r) ≡ false
    differs q o out e = ne→== q r λ d.
        never (sym e ∙ (==_iff o (s.runs r).output).1 (sym out ∙ ap (λ k. (s.runs k).output) d))

pub install-Frame : (ep : ℕ) (s : Lifecycle) → Frame s (install ep s)
unfolding install deactivate
install-Frame ep s =
    let quiet_one = deactivate-Frame s.output_count s in
    record {
      outputs = λ r. refl;
      dones = λ r. refl;
      current = refl;
      count = refl;
      active = quiet_one.active;
      live = λ r h. h;
      unborn = λ r h. h;
    }

-- The operation, a watcher, the processor or what is pending changes after a frame.
pub later-Inv :
    (s t : Lifecycle) (o : Op) (w : ℕ → Watcher) (p : Bool) (os : List ℕ)
    → Frame s t
    → ((r : ℕ) → op_run o ≡ some r → op_run s.op ≡ some r)
    → ((x : Option ℕ)
        → op_target o ≡ some x
        → (op_target s.op ≡ some x) ⊎ (s.endpoint_run ≡ none) ⊎ (s.endpoint_run ≡ x))
    → Inv s
    → Inv (record t { op = o; watchers = w; processor = p; pending = os })
later-Inv s t o w p os f starts targets i =
    Frame-Inv s _ (Frame-trans s t _ f (rest-Frame t o w p os)) starts targets i

-- Where the operation stays.
pub same-Inv : (s t : Lifecycle) → Frame s t → t.op ≡ s.op → Inv s → Inv t
same-Inv s t f e i =
    Frame-Inv s t f (λ r h. ap op_run (sym e) ∙ h) (λ x h. inl (ap op_target (sym e) ∙ h)) i

pub to_stop_lem : (s : Lifecycle) → (s.endpoint_run ≡ none) ⊎ (s.endpoint_run ≡ to_stop s)
unfolding to_stop
to_stop_lem s = elim (Option-cases s.endpoint_run) [ inl e ↦ inl e | inr (r, e) ↦ inr (rw e refl) ]

-- After Stop has waited, and where Start has failed, nobody holds the lock or another endpoint is installed.
pub free-Inv :
    (s : Lifecycle) (o : Op) (p : Bool)
    → op_run o ≡ none
    → op_target o ≡ none
    → Inv s
    → Inv (record s { op = o; processor = p })
free-Inv s o p a b i =
    later-Inv s s o s.watchers p s.pending (Frame-refl s) (λ r h. absurd cc) (λ x h. absurd cc) i
