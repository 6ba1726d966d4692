-- ===== src/Service/Lifecycle/Live.antt =====
-- internal/n2kinternal/n2kinternal.go: what each change of the lifecycle's state keeps of the runs.
use n2k.Prelude.{
  ℕ, ◌≡◌, ◌≢◌, refl, sym, ap, ◌∙◌, inl, inr, Bool, true, false, List, Option, none, some, ◌==◌,
  ==_iff, Bool-cases, if◌then◌else◌,
}
use n2k.Service.Lifecycle.{
  EndpointRun, Loop, Watcher, Op, Lifecycle, update, cancel_run, mark_run, deactivate,
  close_endpoint, cancel_option, close_option, with_loop,
}

-- The goroutine has not passed the deactivation of the output.
unfoldable pub is_live : Loop → Bool
is_live Loop.running = true
is_live (Loop.marked e) = true
is_live _ = false

-- From `s` to `t` no run is begun or finished, none goes live, and no output is activated.
pub record Frame (s t : Lifecycle) : Type 0 where
  pub outputs : (r : ℕ) → (t.runs r).output ≡ (s.runs r).output
  pub dones : (r : ℕ) → (t.runs r).done ≡ (s.runs r).done
  pub current : t.endpoint_run ≡ s.endpoint_run
  pub count : t.run_count ≡ s.run_count
  pub active : (o : ℕ) → t.active o ≡ true → s.active o ≡ true
  pub live : (r : ℕ) → is_live (s.loops r) ≡ true → is_live (t.loops r) ≡ true
  pub unborn : (r : ℕ) → s.loops r ≡ Loop.unborn → t.loops r ≡ Loop.unborn

pub Frame-refl : (s : Lifecycle) → Frame s s
Frame-refl s = record {
  outputs = λ r. refl;
  dones = λ r. refl;
  current = refl;
  count = refl;
  active = λ o h. h;
  live = λ r h. h;
  unborn = λ r h. h;
}

pub Frame-trans : (s t u : Lifecycle) → Frame s t → Frame t u → Frame s u
Frame-trans s t u f g = record {
  outputs = λ r. g.outputs r ∙ f.outputs r;
  dones = λ r. g.dones r ∙ f.dones r;
  current = g.current ∙ f.current;
  count = g.count ∙ f.count;
  active = λ o h. f.active o (g.active o h);
  live = λ r h. g.live r (f.live r h);
  unborn = λ r h. g.unborn r (f.unborn r h);
}

pub update_hit : {A : Type 0} (f : ℕ → A) (r j : ℕ) (a : A) → (j == r) ≡ true → update f r a j ≡ a
update_hit f r j a h = rw h refl

pub update_miss :
    {A : Type 0} (f : ℕ → A) (r j : ℕ) (a : A) → (j == r) ≡ false → update f r a j ≡ f j
update_miss f r j a h = rw h refl

-- A value that the update does not change is the same at every number.
pub update_keeps :
    {A B : Type 0} (f : ℕ → A) (r j : ℕ) (a : A) (g : A → B)
    → g a ≡ g (f r)
    → g (update f r a j) ≡ g (f j)
update_keeps f r j a g e = elim (Bool-cases (j == r)) [
  | inl h ↦ rw (h, (==_iff j r).0 h) e
  | inr h ↦ rw h refl
]

-- A run whose output and end stay.
run-Frame :
    (s : Lifecycle) (r : ℕ) (x : EndpointRun)
    → x.output ≡ (s.runs r).output
    → x.done ≡ (s.runs r).done
    → Frame s (record s { runs = update s.runs r x })
run-Frame s r x p q = record {
  outputs = λ j. update_keeps s.runs r j x (λ y. y.output) p;
  dones = λ j. update_keeps s.runs r j x (λ y. y.done) q;
  current = refl;
  count = refl;
  active = λ o h. h;
  live = λ j h. h;
  unborn = λ j h. h;
}

pub cancel_run-Frame : (r : ℕ) (s : Lifecycle) → Frame s (cancel_run r s)
unfolding cancel_run
cancel_run-Frame r s = run-Frame s r _ refl refl

pub ended-Frame :
    (r : ℕ) (s : Lifecycle)
    → Frame s (record s { runs = update s.runs r (record (s.runs r) { cancelled = true }) })
ended-Frame r s = run-Frame s r _ refl refl

pub mark_run-Frame : (r : ℕ) (s : Lifecycle) → Frame s (mark_run r s)
unfolding mark_run
mark_run-Frame r s = run-Frame s r _ refl refl

if-Frame : (s : Lifecycle) (b : Bool) (t : Lifecycle) → Frame s t → Frame s (if b then s else t)
if-Frame s true t f = Frame-refl s
if-Frame s false t f = f

pub close_endpoint-Frame : (r : ℕ) (e : List ℕ) (s : Lifecycle) → Frame s (close_endpoint r e s)
unfolding close_endpoint
close_endpoint-Frame r e s = if-Frame s (s.runs r).closed _ (run-Frame s r _ refl refl)

pub cancel_option-Frame : (r : Option ℕ) (s : Lifecycle) → Frame s (cancel_option r s)
cancel_option-Frame none s = Frame-refl s
cancel_option-Frame (some r) s = cancel_run-Frame r s

same_runs : (s : Lifecycle) (n : ℕ) → Frame s (record s { direct_closes = n })
same_runs s n = record {
  outputs = λ r. refl;
  dones = λ r. refl;
  current = refl;
  count = refl;
  active = λ o h. h;
  live = λ r h. h;
  unborn = λ r h. h;
}

pub close_option-Frame : (r : Option ℕ) (e : List ℕ) (s : Lifecycle) → Frame s (close_option r e s)
close_option-Frame none e s = same_runs s _
close_option-Frame (some r) e s = close_endpoint-Frame r e s

pub never : ◌≡◌ {A = Bool} false true → ⊥
never e = cc

pub deactivate-Frame : (o : ℕ) (s : Lifecycle) → Frame s (deactivate o s)
unfolding deactivate
deactivate-Frame o s = record {
  outputs = λ r. refl;
  dones = λ r. refl;
  current = refl;
  count = refl;
  active = λ j h. elim (Bool-cases (j == o)) [
    | inl e ↦ absurd (never (sym (update_hit s.active o j false e) ∙ h))
    | inr e ↦ sym (update_miss s.active o j false e) ∙ h
  ];
  live = λ r h. h;
  unborn = λ r h. h;
}

-- A goroutine that was started goes on.
pub with_loop-Frame :
    (r : ℕ) (l : Loop) (s : Lifecycle)
    → s.loops r ≢ Loop.unborn
    → (is_live (s.loops r) ≡ true → is_live l ≡ true)
    → Frame s (with_loop r l s)
with_loop-Frame r l s started stays = record {
  outputs = λ j. refl;
  dones = λ j. refl;
  current = refl;
  count = refl;
  active = λ o h. h;
  live = λ j h. elim (Bool-cases (j == r)) [
    | inl e ↦ rw e (stays (ap (λ k. is_live (s.loops k)) (sym ((==_iff j r).0 e)) ∙ h))
    | inr e ↦ rw e h
  ];
  unborn = λ j h. elim (Bool-cases (j == r)) [
    | inl e ↦ absurd (started (ap s.loops (sym ((==_iff j r).0 e)) ∙ h))
    | inr e ↦ rw e h
  ];
}

-- The fields that no invariant reads.
pub rest-Frame :
    (s : Lifecycle) (o : Op) (w : ℕ → Watcher) (p : Bool) (os : List ℕ)
    → Frame s (record s { op = o; watchers = w; processor = p; pending = os })
rest-Frame s o w p os = record {
  outputs = λ r. refl;
  dones = λ r. refl;
  current = refl;
  count = refl;
  active = λ o' h. h;
  live = λ r h. h;
  unborn = λ r h. h;
}
