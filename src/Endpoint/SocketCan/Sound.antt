-- ===== src/Endpoint/SocketCan/Sound.antt =====
-- pkg/endpoint/socketcanendpoint/socketcanendpoint.go: what the queues hold, and one writer at a time.
use n2k.Prelude.{
  ℕ, suc, ◌≤◌, ◌≡◌, refl, ap, subst, Bool, true, false, List, [], ◌∷◌, ◌++◌, All, ltb, ltb→lt,
  length, length-append, arith, Bool-cases, inl, inr, ◌≢◌, if◌then◌else◌,
}
use n2k.Endpoint.SocketCan.{
  Outbound, Writer, Stage, SocketCan, offer, queue_size, is_low_priority, look, look_at,
  write_queued_frame, requeue, record_outbound_lag, stamp, retry_policy, Answer,
}

abbrev pub IsLow : Outbound → Type 0
IsLow item = is_low_priority item.frame ≡ true

abbrev pub IsHigh : Outbound → Type 0
IsHigh item = is_low_priority item.frame ≡ false

-- Only a frame of high priority keeps the writer in its timer.
abbrev pub IsDelayedHigh : Writer → Type 0
IsDelayedHigh (Writer.delaying item) = IsHigh item
IsDelayedHigh w = Unit {0}

-- Where `Run` is not yet past `Start`, or has returned, nothing writes.
abbrev pub IsAlone : Stage → Writer → Type 0
IsAlone Stage.reading w = Unit {0}
IsAlone Stage.stopping w = Unit {0}
IsAlone Stage.joining w = Unit {0}
IsAlone s w = w ≡ Writer.gone

abbrev pub IsRunning : Bool → Stage → Type 0
IsRunning false s = s ≡ Stage.idle
IsRunning true s = Unit {0}

pub record IsSound (s : SocketCan) : Type 0 where
  pub high_fits : length s.high ≤ queue_size
  pub low_fits : length s.low ≤ queue_size
  pub all_high : All IsHigh s.high
  pub all_low : All IsLow s.low
  pub blocked_high : All IsHigh s.blocked
  pub requeued_low : All (λ r. IsLow r.0) s.requeued
  pub delayed : IsDelayedHigh s.writer
  pub alone : IsAlone s.stage s.writer
  pub run : IsRunning s.running s.stage

module _ {A : Type 0} (P : A → Type 0) where
  pub All-append : (xs ys : List A) → All P xs → All P ys → All P (xs ++ ys)
  All-append [] ys all more = more
  All-append (x ∷ xs) ys (p, all) more = (p, All-append xs ys all more)

  -- A list with one element out.
  pub All-middle : (xs ys : List A) (x : A) → All P (xs ++ (x ∷ ys)) → P x × All P (xs ++ ys)
  All-middle [] ys x (p, all) = (p, all)
  All-middle (y ∷ xs) ys x (p, all) = let (q, rest) = All-middle xs ys x all in (q, (p, rest))

pub offer-IsSound :
    (done_first : Bool) (item : Outbound) (s : SocketCan)
    → IsSound s
    → IsSound (offer done_first item s).1
unfolding offer
offer-IsSound done_first item s v = ground (
  arith,
  v.high_fits,
  All-append IsHigh s.high (item ∷ []),
  All-append IsLow s.low (item ∷ []),
  All-append IsHigh s.blocked (item ∷ []),
  length-append s.high (item ∷ []),
  length-append s.low (item ∷ []),
)

pub requeue-IsSound :
    (end_first : Bool) (item : Outbound) (r : ℕ) (s : SocketCan)
    → IsLow item
    → IsSound s
    → IsSound (requeue end_first item r s).1
unfolding requeue
requeue-IsSound end_first item r s low v =
    ground (arith, v.low_fits, All-append IsLow s.low (item ∷ []), length-append s.low (item ∷ []))

-- While something writes, `Run` is past `Start`.
writing : (st : Stage) (w w' : Writer) → IsAlone st w → w ≢ Writer.gone → IsAlone st w'
writing Stage.idle w w' alone more = absurd (more alone)
writing Stage.starting w w' alone more = absurd (more alone)
writing Stage.started w w' alone more = absurd (more alone)
writing Stage.reading w w' alone more = tt
writing Stage.stopping w w' alone more = tt
writing Stage.joining w w' alone more = tt

-- The writer goes on.
pub goes-IsSound :
    (w : Writer) (s : SocketCan)
    → IsSound s
    → s.writer ≢ Writer.gone
    → IsDelayedHigh w
    → IsSound (record s { writer = w })
goes-IsSound w s v more delayed = record {
  high_fits = v.high_fits;
  low_fits = v.low_fits;
  all_high = v.all_high;
  all_low = v.all_low;
  blocked_high = v.blocked_high;
  requeued_low = v.requeued_low;
  delayed = delayed;
  alone = writing s.stage s.writer w v.alone more;
  run = v.run;
}

-- The high queue without its first.
pub took-IsSound :
    (item : Outbound) (items : List Outbound) (s : SocketCan)
    → IsSound s
    → s.high ≡ item ∷ items
    → IsSound (record s { high = items })
took-IsSound item items s v e =
    let all : IsHigh item × All IsHigh items = subst (All IsHigh) e v.all_high in
    record {
      high_fits = omega (arith, v.high_fits, ap length e);
      low_fits = v.low_fits;
      all_high = all.1;
      all_low = v.all_low;
      blocked_high = v.blocked_high;
      requeued_low = v.requeued_low;
      delayed = v.delayed;
      alone = v.alone;
      run = v.run;
    }

pub took_low-IsSound :
    (item : Outbound) (items : List Outbound) (s : SocketCan)
    → IsSound s
    → s.low ≡ item ∷ items
    → IsSound (record s { low = items })
took_low-IsSound item items s v e =
    let all : IsLow item × All IsLow items = subst (All IsLow) e v.all_low in
    record {
      high_fits = v.high_fits;
      low_fits = omega (arith, v.low_fits, ap length e);
      all_high = v.all_high;
      all_low = all.1;
      blocked_high = v.blocked_high;
      requeued_low = v.requeued_low;
      delayed = v.delayed;
      alone = v.alone;
      run = v.run;
    }

look_at-IsSound :
    (now : ℕ) (items : List Outbound) (s : SocketCan)
    → IsSound s
    → s.writer ≡ Writer.looking
    → s.high ≡ items
    → IsSound (look_at now items s)
look_at-IsSound now [] s v here e = goes-IsSound Writer.waiting s v (λ g. cc) tt
look_at-IsSound now (item ∷ items) s v here e =
    goes-IsSound (Writer.sending (stamp now item)) (record s { high = items })
      (took-IsSound item items s v e) (λ g. cc) tt

pub look_lem :
    (now : ℕ) (s : SocketCan) → IsSound s → s.writer ≡ Writer.looking → IsSound (look now s)
unfolding look
look_lem now s v here = look_at-IsSound now s.high s v here refl

requeued-IsSound :
    (item : Outbound) (r : ℕ) (s : SocketCan)
    → IsSound s
    → IsLow item
    → IsSound (record s { requeued = s.requeued ++ ((item, r) ∷ []) })
requeued-IsSound item r s v low = record {
  high_fits = v.high_fits;
  low_fits = v.low_fits;
  all_high = v.all_high;
  all_low = v.all_low;
  blocked_high = v.blocked_high;
  requeued_low = All-append (λ x. IsLow x.0) s.requeued ((item, r) ∷ []) v.requeued_low (low, tt);
  delayed = v.delayed;
  alone = v.alone;
  run = v.run;
}

lag-IsSound :
    (now later : ℕ) (item : Outbound) (s : SocketCan)
    → IsSound s
    → IsSound (record_outbound_lag now later item s)
unfolding record_outbound_lag
lag-IsSound now later item s v = record {
  high_fits = v.high_fits;
  low_fits = v.low_fits;
  all_high = v.all_high;
  all_low = v.all_low;
  blocked_high = v.blocked_high;
  requeued_low = v.requeued_low;
  delayed = v.delayed;
  alone = v.alone;
  run = v.run;
}

pub write_queued_frame-IsSound :
    (answer : Answer) (now later : ℕ) (item : Outbound) (s : SocketCan)
    → IsSound s
    → s.writer ≡ Writer.sending item
    → IsSound (write_queued_frame answer now later item s).1
unfolding write_queued_frame record_outbound_lag retry_policy
write_queued_frame-IsSound Answer.taken now later item s v here =
    goes-IsSound Writer.top (record_outbound_lag now later item s) (lag-IsSound now later item s v)
      (λ g. cc) tt
write_queued_frame-IsSound Answer.broken now later item s v here =
    goes-IsSound Writer.top s v (λ g. cc) tt
write_queued_frame-IsSound Answer.full now later item s v here =
    let s' = record_outbound_lag now later item s in
    elim (Bool-cases (is_low_priority item.frame)) [
      | inl low ↦
          let again = record item { attempt = suc item.attempt } in
          simp low (
            goes-IsSound Writer.top (record s' { requeued = s.requeued ++ ((again, s.run) ∷ []) })
              (requeued-IsSound again s.run s' (lag-IsSound now later item s v) low) (λ g. cc) tt)
      | inr high ↦
          simp high
            (goes-IsSound (Writer.delaying item) s' (lag-IsSound now later item s v) (λ g. cc) high)
    ]

pub grown-IsSound :
    (item : Outbound) (s : SocketCan)
    → IsSound s
    → IsHigh item
    → ltb (length s.high) queue_size ≡ true
    → IsSound (record s { high = s.high ++ (item ∷ []) })
grown-IsSound item s v high room = record {
  high_fits =
      omega (arith, length-append s.high (item ∷ []), ltb→lt (length s.high) queue_size room);
  low_fits = v.low_fits;
  all_high = All-append IsHigh s.high (item ∷ []) v.all_high (high, tt);
  all_low = v.all_low;
  blocked_high = v.blocked_high;
  requeued_low = v.requeued_low;
  delayed = v.delayed;
  alone = v.alone;
  run = v.run;
}

pub checked-IsSound :
    (b : Bool) (s : SocketCan)
    → IsSound s
    → s.writer ≢ Writer.gone
    → IsSound (record s { writer = if b then Writer.gone else Writer.looking })
checked-IsSound true s v more = goes-IsSound Writer.gone s v more tt
checked-IsSound false s v more = goes-IsSound Writer.looking s v more tt

-- What a step changes besides: the lists of calls and of goroutines, which lose one element.
pub waits-IsSound :
    (entered blocked : List Outbound) (requeued : List (Outbound × ℕ)) (s : SocketCan)
    → IsSound s
    → All IsHigh blocked
    → All (λ x. IsLow x.0) requeued
    → IsSound (record s { entered = entered; blocked = blocked; requeued = requeued })
waits-IsSound entered blocked requeued s v high low = record {
  high_fits = v.high_fits;
  low_fits = v.low_fits;
  all_high = v.all_high;
  all_low = v.all_low;
  blocked_high = high;
  requeued_low = low;
  delayed = v.delayed;
  alone = v.alone;
  run = v.run;
}

-- `Run` goes on to a stage where it may be, and what is not looked at changes.
pub stage-IsSound :
    (closed done running : Bool) (stage : Stage) (writer : Writer) (run : ℕ) (ended : ℕ → Bool)
    (s : SocketCan)
    → IsSound s
    → IsDelayedHigh writer
    → IsAlone stage writer
    → IsRunning running stage
    → IsSound (record s {
      closed = closed;
      done = done;
      running = running;
      stage = stage;
      writer = writer;
      run = run;
      ended = ended;
    })
stage-IsSound closed done running stage writer run ended s v delayed alone runs = record {
  high_fits = v.high_fits;
  low_fits = v.low_fits;
  all_high = v.all_high;
  all_low = v.all_low;
  blocked_high = v.blocked_high;
  requeued_low = v.requeued_low;
  delayed = delayed;
  alone = alone;
  run = runs;
}
