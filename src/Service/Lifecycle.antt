-- ===== src/Service/Lifecycle.antt =====
-- internal/n2kinternal/n2kinternal.go: Start, Stop, UpdateEndpoint and the two goroutines of an endpoint's run, as steps
-- between which the others may come. A step is what the code does under one lock, or one call. Runs, endpoints and
-- outputs are numbered; an error is a list of errors, which is empty for nil and joined by errors.Join.
pub mod Live
pub mod Quiet
pub mod Stopped
mod Tests
use n2k.Prelude.{
  ℕ, suc, ◌+◌, ◌≡◌, ◌⊎◌, Bool, true, false, ◌||◌, List, [], ◌∷◌, ◌++◌, Option, none, some, ◌==◌,
  if◌then◌else◌,
}

-- `serviceEndpointRun`. `cancelled` is whether its context has ended, `closed` whether closeOnce has run,
-- `closes` how often it has called Close, and `done` whether the channel is closed.
pub record EndpointRun : Type 0 where
  pub ep : ℕ
  pub output : ℕ
  pub cancelled : Bool
  pub stopping : Bool
  pub closed : Bool
  pub close_err : List ℕ
  pub closes : ℕ
  pub done : Bool
  pub result : List ℕ

-- `runEndpoint`: before the goroutine is started, in the endpoint's Run, and after each of the calls behind it.
pub data Loop : Type 0 where
  unborn running : Loop
  marked quiet drained : List ℕ → Loop
  closed_loop stopped_loop : List ℕ → List ℕ → Loop
  over : Loop

-- `closeEndpointOnContext`.
pub data Watcher : Type 0 where
  unborn watching marked quiet over : Watcher

-- Who holds lifecycleOpMu: nobody, Start with its run and, where it fails, the error; or Stop and UpdateEndpoint,
-- with the run that they stop, the output, and the endpoint to install.
pub data Op : Type 0 where
  free : Op
  starting : ℕ → Op
  failed finishing : ℕ → List ℕ → Op
  stopping : Option ℕ → ℕ → Option ℕ → Op
  silenced closed_op waited : Option ℕ → Option ℕ → Op
  installing : ℕ → Op

-- `direct_closes` counts the calls of Close by stopCurrentEndpoint without a run. `pending` are the outputs that cancelCurrentEndpointRun has still to deactivate.
pub record Lifecycle : Type 0 where
  pub endpoint : ℕ
  pub endpoint_output : ℕ
  pub output_count : ℕ
  pub runs : ℕ → EndpointRun
  pub run_count : ℕ
  pub endpoint_run : Option ℕ
  pub last_run : Option ℕ
  pub active : ℕ → Bool
  pub processor : Bool
  pub op : Op
  pub loops : ℕ → Loop
  pub watchers : ℕ → Watcher
  pub pending : List ℕ
  pub direct_closes : ℕ

abbrev pub update {ℓ} : {A : Type ℓ} → (ℕ → A) → ℕ → A → ℕ → A
update f r a j = if j == r then a else f j

abbrev pub is_run : ℕ → Option ℕ → Bool
is_run r none = false
is_run r (some q) = q == r

abbrev pub no_run : EndpointRun
no_run = record {
  ep = 0;
  output = 0;
  cancelled = false;
  stopping = false;
  closed = false;
  close_err = [];
  closes = 0;
  done = false;
  result = [];
}

unfoldable pub new_lifecycle : ℕ → Lifecycle
new_lifecycle ep = record {
  endpoint = ep;
  endpoint_output = 0;
  output_count = 1;
  runs = λ r. no_run;
  run_count = 0;
  endpoint_run = none;
  last_run = none;
  active = λ o. false;
  processor = false;
  op = free;
  loops = λ r. unborn;
  watchers = λ r. unborn;
  pending = [];
  direct_closes = 0;
}

-- `run.stopping = true; run.cancel()`, and only the first.
unfoldable pub cancel_run : ℕ → Lifecycle → Lifecycle
cancel_run r s = record s {
  runs = update s.runs r (record (s.runs r) { cancelled = true; stopping = true });
}

unfoldable pub mark_run : ℕ → Lifecycle → Lifecycle
mark_run r s = record s { runs = update s.runs r (record (s.runs r) { stopping = true }) }

unfoldable pub deactivate : ℕ → Lifecycle → Lifecycle
deactivate o s = record s { active = update s.active o false }

-- `closeEndpoint`: `error` is what Close would return.
unfoldable pub close_endpoint : ℕ → List ℕ → Lifecycle → Lifecycle
close_endpoint r error s = if (s.runs r).closed then s else record s {
  runs =
      update s.runs r
        (record (s.runs r) { closed = true; close_err = error; closes = suc (s.runs r).closes });
}

unfoldable pub finish_endpoint_run : ℕ → List ℕ → Lifecycle → Lifecycle
finish_endpoint_run r result s = record s {
  runs = update s.runs r (record (s.runs r) { cancelled = true; result = result; done = true });
  endpoint_run = if is_run r s.endpoint_run then none else s.endpoint_run;
}

-- The new run of Start.
unfoldable pub begin_start : Lifecycle → Lifecycle
begin_start s = record s {
  runs = update s.runs s.run_count (record no_run { ep = s.endpoint; output = s.endpoint_output });
  run_count = suc s.run_count;
  endpoint_run = some s.run_count;
  last_run = some s.run_count;
  op = starting s.run_count;
}

-- Whether Start finds its run stopped after the endpoint has started.
unfoldable pub start_stopped : ℕ → Lifecycle → Bool
start_stopped r s =
    (s.runs r).stopping
    || ((s.runs r).cancelled || (if is_run r s.endpoint_run then false else true))

-- The output is activated and the goroutines of the run and of the processor are started.
unfoldable pub go : ℕ → Lifecycle → Lifecycle
go r s = record s {
  active = update s.active (s.runs r).output true;
  processor = true;
  loops = update s.loops r running;
  watchers = update s.watchers r watching;
  op = free;
}

-- The run that Stop stops.
unfoldable pub to_stop : Lifecycle → Option ℕ
to_stop s = elim s.endpoint_run [ none ↦ s.last_run | some r ↦ some r ]

abbrev pub cancel_option : Option ℕ → Lifecycle → Lifecycle
cancel_option none s = s
cancel_option (some r) s = cancel_run r s

abbrev pub close_option : Option ℕ → List ℕ → Lifecycle → Lifecycle
close_option none error s = record s { direct_closes = suc s.direct_closes }
close_option (some r) error s = close_endpoint r error s

-- The channel of the run that is waited for is closed, where there is one.
abbrev pub done_option : Option ℕ → Lifecycle → Bool
done_option none s = true
done_option (some r) s = (s.runs r).done

abbrev pub after_stop : Option ℕ → Op
after_stop none = free
after_stop (some ep) = installing ep

-- A new endpoint with a new output, which is not active.
unfoldable pub install : ℕ → Lifecycle → Lifecycle
install ep s = record s {
  endpoint = ep;
  endpoint_output = s.output_count;
  output_count = suc s.output_count;
  active = update s.active s.output_count false;
  last_run = none;
  op = free;
}

abbrev pub with_op : Op → Lifecycle → Lifecycle
with_op o s = record s { op = o }

abbrev pub with_loop : ℕ → Loop → Lifecycle → Lifecycle
with_loop r l s = record s { loops = update s.loops r l }

abbrev pub with_watcher : ℕ → Watcher → Lifecycle → Lifecycle
with_watcher r w s = record s { watchers = update s.watchers r w }

-- The result of a run: what it was stopped for does not count.
unfoldable pub run_result : ℕ → List ℕ → List ℕ → Lifecycle → List ℕ
run_result r errors close_err s = if (s.runs r).cancelled then close_err else errors ++ close_err

pub data Step (s t : Lifecycle) : Type 0 where
  -- Start, its failure included.
  start_begin : s.op ≡ free → s.endpoint_run ≡ none → t ≡ begin_start s → Step s t
  start_fails :
      (r : ℕ) (error : List ℕ) → s.op ≡ starting r → t ≡ with_op (failed r error) s → Step s t
  start_stops :
      (r : ℕ) (error : List ℕ)
      → s.op ≡ starting r
      → start_stopped r s ≡ true
      → t ≡ with_op (failed r error) s
      → Step s t
  start_goes : (r : ℕ) → s.op ≡ starting r → start_stopped r s ≡ false → t ≡ go r s → Step s t
  start_closes :
      (r : ℕ) (error close_error : List ℕ)
      → s.op ≡ failed r error
      → t
        ≡ with_op
            (finishing r (error ++ ((close_endpoint r close_error s).runs r).close_err))
            (close_endpoint r close_error s)
      → Step s t
  start_finishes :
      (r : ℕ) (result : List ℕ)
      → s.op ≡ finishing r result
      → t ≡ with_op free (finish_endpoint_run r result s)
      → Step s t
  -- The parent's context ends, or Stop and UpdateEndpoint cancel the run before they wait for the lock.
  parent_ends :
      (r : ℕ)
      → t ≡ record s { runs = update s.runs r (record (s.runs r) { cancelled = true }) }
      → Step s t
  cancel_current :
      (r : ℕ)
      → s.endpoint_run ≡ some r
      → t ≡ record (cancel_run r s) { pending = (s.runs r).output ∷ s.pending }
      → Step s t
  cancel_deactivates :
      (o : ℕ) (os : List ℕ)
      → s.pending ≡ o ∷ os
      → t ≡ record (deactivate o s) { pending = os }
      → Step s t
  -- Stop, and UpdateEndpoint with an endpoint to install.
  stop_marks :
      (ep : Option ℕ)
      → s.op ≡ free
      → t ≡ with_op (stopping (to_stop s) s.endpoint_output ep) (cancel_option (to_stop s) s)
      → Step s t
  stop_silences :
      (r : Option ℕ) (o : ℕ) (ep : Option ℕ)
      → s.op ≡ stopping r o ep
      → t ≡ with_op (silenced r ep) (deactivate o s)
      → Step s t
  stop_closes :
      (r ep : Option ℕ) (error : List ℕ)
      → s.op ≡ silenced r ep
      → t ≡ with_op (closed_op r ep) (close_option r error s)
      → Step s t
  stop_waits :
      (r ep : Option ℕ)
      → s.op ≡ closed_op r ep
      → done_option r s ≡ true
      → t ≡ with_op (waited r ep) s
      → Step s t
  stop_ends :
      (r ep : Option ℕ)
      → s.op ≡ waited r ep
      → t ≡ with_op (after_stop ep) (record s { processor = false })
      → Step s t
  update_installs : (ep : ℕ) → s.op ≡ installing ep → t ≡ install ep s → Step s t
  -- runEndpoint.
  run_returns :
      (r : ℕ) (error : List ℕ)
      → s.loops r ≡ running
      → t ≡ with_loop r (marked error) (mark_run r s)
      → Step s t
  run_silences :
      (r : ℕ) (error : List ℕ)
      → s.loops r ≡ marked error
      → t ≡ with_loop r (quiet error) (deactivate (s.runs r).output s)
      → Step s t
  -- The wait for the queue, with an error where the context ends first; a run that is stopped does not wait.
  run_drains :
      (r : ℕ) (error drain_error : List ℕ)
      → s.loops r ≡ quiet error
      → ((s.runs r).cancelled ≡ true) ⊎ (drain_error ≡ [])
      → t ≡ with_loop r (drained (error ++ drain_error)) s
      → Step s t
  run_closes :
      (r : ℕ) (error close_error : List ℕ)
      → s.loops r ≡ drained error
      → t
        ≡ with_loop r
            (closed_loop error ((close_endpoint r close_error s).runs r).close_err)
            (close_endpoint r close_error s)
      → Step s t
  run_stops_processor :
      (r : ℕ) (error close_err : List ℕ)
      → s.loops r ≡ closed_loop error close_err
      → t ≡ with_loop r (stopped_loop error close_err) (record s { processor = false })
      → Step s t
  run_finishes :
      (r : ℕ) (error close_err : List ℕ)
      → s.loops r ≡ stopped_loop error close_err
      → t ≡ with_loop r over (finish_endpoint_run r (run_result r error close_err s) s)
      → Step s t
  -- closeEndpointOnContext.
  watcher_marks :
      (r : ℕ)
      → s.watchers r ≡ watching
      → (s.runs r).cancelled ≡ true
      → t ≡ with_watcher r marked (mark_run r s)
      → Step s t
  watcher_silences :
      (r : ℕ)
      → s.watchers r ≡ marked
      → t ≡ with_watcher r quiet (deactivate (s.runs r).output s)
      → Step s t
  watcher_closes :
      (r : ℕ) (error : List ℕ)
      → s.watchers r ≡ quiet
      → t ≡ with_watcher r over (close_endpoint r error s)
      → Step s t
  watcher_leaves :
      (r : ℕ)
      → s.watchers r ≡ watching
      → (s.runs r).done ≡ true
      → t ≡ with_watcher r over s
      → Step s t

-- A sequence of steps.
pub data Steps (s : Lifecycle) : Lifecycle → Type 0 where
  here : Steps s s
  next : {t u : Lifecycle} → Steps s t → Step t u → Steps s u
