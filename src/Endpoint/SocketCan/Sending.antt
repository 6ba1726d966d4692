-- ===== src/Endpoint/SocketCan/Sending.antt =====
-- pkg/endpoint/socketcanendpoint/socketcanendpoint.go: when a frame is written.
use n2k.Prelude.{
  ◌≡◌, ◌≢◌, refl, sym, ◌∙◌, suc, if◌then◌else◌, append_assoc, append-nil, ap, subst, Bool, true,
  false, List, [], ◌∷◌, ◌++◌,
}
use n2k.Endpoint.SocketCan.{
  Outbound, Writer, Stage, SocketCan, new_socket_can, Event, Step, Run, check_end, look, look_at,
  write_queued_frame, record_outbound_lag, stamp, Answer, is_over,
}
use n2k.Endpoint.SocketCan.Sound.{IsAlone, IsRunning}
use n2k.Endpoint.SocketCan.Reachable.{Run-new_socket_can-IsSound}

running_lem :
    (b : Bool) (st : Stage) (w : Writer)
    → IsRunning b st
    → IsAlone st w
    → w ≢ Writer.gone
    → b ≡ true
running_lem true st w run alone writing = refl
running_lem false st w idle alone writing = absurd (writing (subst (λ x. IsAlone x w) idle alone))

-- In every state that steps from a new endpoint lead to, the channel is given a frame only while `Run` is
-- under way.
pub writes-IsRunning :
    (s : SocketCan) (es : List Event) (item : Outbound)
    → Run new_socket_can es s
    → s.writer ≡ Writer.sending item
    → s.running ≡ true
writes-IsRunning s es item r here =
    let v = Run-new_socket_can-IsSound s es r in
    running_lem s.running s.stage s.writer v.run v.alone (λ g. cc)

-- Steps from here lead to the channel having taken `item`, with `items` in the high queue.
pub Sends : Outbound → List Outbound → SocketCan → Type 0
Sends item items s =
    (t : SocketCan) × (es : List Event) × Run s (es ++ (Event.sent item.frame ∷ [])) t
    × (t.high ≡ items)

-- One step before a run.
before :
    {s t u : SocketCan} {es ds : List Event} (all : List Event)
    → Step s es t
    → Run t ds u
    → all ≡ es ++ ds
    → Run s all u
before {es = es} all st Run.here e = Run.next all es Run.here st (e ∙ append-nil es)
before {es = es} all st (Run.next {ds = ds'} ds fs r st' e') e =
    Run.next all fs (before (es ++ ds') st r refl) st'
      (e ∙ ap (λ (x : List Event). es ++ x) e' ∙ sym (append_assoc es ds' fs))

module _ (item : Outbound) (items : List Outbound) where
  after :
      {s t : SocketCan} (es : List Event) → Step s es t → Sends item items t → Sends item items s
  unfolding Sends
  after es st (u, ds, r, rest) =
      (u, es ++ ds, before _ st r (append_assoc es ds (Event.sent item.frame ∷ [])), rest)

  from_sending :
      (s : SocketCan)
      → s.writer ≡ Writer.sending (stamp 0 item)
      → s.high ≡ items
      → Sends item items s
  unfolding Sends write_queued_frame record_outbound_lag
  from_sending s here rest = (
    (write_queued_frame Answer.taken 0 0 (stamp 0 item) s).1,
    [],
    before _ (Step.writes Answer.taken 0 0 (stamp 0 item) here refl refl) Run.here refl,
    rest,
  )

  from_waiting :
      (s : SocketCan) → s.writer ≡ Writer.waiting → s.high ≡ item ∷ items → Sends item items s
  from_waiting s here e =
      let t : SocketCan = record s { high = items; writer = Writer.sending (stamp 0 item) } in
      after [] (Step.takes_high 0 item items here e refl refl) (from_sending t refl refl)

  from_looking :
      (s : SocketCan) → s.writer ≡ Writer.looking → s.high ≡ item ∷ items → Sends item items s
  unfolding look
  from_looking s here e = after [] (Step.looks 0 here refl refl) (
      from_sending (look 0 s) (ap (λ (h : List Outbound). (look_at 0 h s).writer) e)
        (ap (λ (h : List Outbound). (look_at 0 h s).high) e))

  from_top :
      (s : SocketCan)
      → s.writer ≡ Writer.top
      → is_over s ≡ false
      → s.high ≡ item ∷ items
      → Sends item items s
  unfolding check_end
  from_top s here on e = after [] (Step.checks here refl refl) (
      from_looking (check_end s) (ap (λ (b : Bool). if b then Writer.gone else Writer.looking) on)
        e)

  from_other :
      (s : SocketCan) (j : Outbound)
      → s.writer ≡ Writer.sending j
      → is_over s ≡ false
      → s.high ≡ item ∷ items
      → Sends item items s
  unfolding write_queued_frame record_outbound_lag
  from_other s j here on e =
      after (Event.sent j.frame ∷ []) (Step.writes Answer.taken 0 0 j here refl refl)
        (from_top (write_queued_frame Answer.taken 0 0 j s).1 refl on e)

  from_any :
      (w : Writer) (s : SocketCan)
      → s.writer ≡ w
      → w ≢ Writer.gone
      → is_over s ≡ false
      → s.high ≡ item ∷ items
      → Sends item items s
  from_any Writer.gone s here alive on e = absurd (alive refl)
  from_any Writer.top s here alive on e = from_top s here on e
  from_any Writer.looking s here alive on e = from_looking s here e
  from_any Writer.waiting s here alive on e = from_waiting s here e
  from_any (Writer.sending j) s here alive on e = from_other s j here on e
  from_any (Writer.delaying j) s here alive on e =
      let again : Outbound = record j { attempt = suc j.attempt } in
      after [] (Step.retries j here refl refl)
        (from_other (record s { writer = Writer.sending again }) again refl on e)

  -- Wherever the goroutine that writes stands, while neither its context has ended nor the endpoint is closed,
  -- some steps lead to the channel having taken the oldest frame of the high queue, with the others left in it.
  pub reaches_oldest_high :
      (s : SocketCan)
      → s.writer ≢ Writer.gone
      → is_over s ≡ false
      → s.high ≡ item ∷ items
      → Sends item items s
  reaches_oldest_high s alive on e = from_any s.writer s refl alive on e
