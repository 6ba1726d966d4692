-- ===== src/Endpoint/SocketCan/Balance.antt =====
-- pkg/endpoint/socketcanendpoint/socketcanendpoint.go: what each operation does to the frames of high
-- priority between the entry to their queue and their exit.
use n2k.Prelude.{
  ◌≡◌, refl, sym, ap, ap₂, subst, ◌∙◌, Bool, true, false, List, [], ◌∷◌, ◌++◌, All, map,
  append_assoc, append-nil, if◌then◌else◌, Bool-cases, inl, inr, ltb, length, ℕ, not, ◌&&◌,
}
use n2k.Converter.{Frame}
use n2k.Endpoint.SocketCan.{
  Outbound, Writer, SocketCan, Event, offer, is_low_priority, look_at, write_queued_frame, requeue,
  record_outbound_lag, stamp, retry_policy, Answer, sends, queue_size,
}
use n2k.Endpoint.SocketCan.Sound.{IsHigh, IsLow}

-- The frame, where its priority is high.
abbrev pub if_high : Frame → List Frame
if_high f = if is_low_priority f then [] else f ∷ []

abbrev pub entry : Event → List Frame
entry (Event.accepted f) = if_high f
entry e = []

abbrev pub exit : Event → List Frame
exit (Event.sent f) = if_high f
exit (Event.failed f) = if_high f
exit (Event.abandoned f) = if_high f
exit e = []

abbrev pub pick : (Event → List Frame) → List Event → List Frame
pick p [] = []
pick p (e ∷ es) = p e ++ pick p es

pub pick-append :
    (p : Event → List Frame) (es fs : List Event) → pick p (es ++ fs) ≡ pick p es ++ pick p fs
pick-append p [] fs = refl
pick-append p (e ∷ es) fs =
    ap (λ (r : List Frame). p e ++ r) (pick-append p es fs)
    ∙ sym (append_assoc (p e) (pick p es) (pick p fs))

-- The frame that the writer has, where its priority is high.
abbrev pub held : Writer → List Frame
held (Writer.sending item) = if_high item.frame
held (Writer.delaying item) = if_high item.frame
held w = []

abbrev pub frames : List Outbound → List Frame
frames items = map (λ (item : Outbound). item.frame) items

-- What is between entry and exit.
abbrev pub inside : SocketCan → List Frame
inside s = held s.writer ++ frames s.high

unfoldable pub IsBalanced : SocketCan → List Event → SocketCan → Type 0
IsBalanced s es t = inside s ++ pick entry es ≡ pick exit es ++ inside t

pub same : (s t : SocketCan) → inside s ≡ inside t → IsBalanced s [] t
unfolding IsBalanced
same s t e = append-nil (inside s) ∙ e

frames-append : (xs ys : List Outbound) → frames (xs ++ ys) ≡ frames xs ++ frames ys
frames-append [] ys = refl
frames-append (x ∷ xs) ys = ap (λ (r : List Frame). x.frame ∷ r) (frames-append xs ys)

only : (f : Frame) → is_low_priority f ≡ false → if_high f ≡ f ∷ []
only f high = rw high refl

pub nothing : (f : Frame) → is_low_priority f ≡ true → if_high f ≡ []
nothing f low = rw low refl

-- A frame that comes last into the high queue.
pub grown :
    (item : Outbound) (s t : SocketCan)
    → IsHigh item
    → t.writer ≡ s.writer
    → t.high ≡ s.high ++ (item ∷ [])
    → IsBalanced s (Event.accepted item.frame ∷ []) t
unfolding IsBalanced
grown item s t high w e =
    ap (λ (r : List Frame). inside s ++ (r ++ [])) (only item.frame high)
    ∙ append_assoc (held s.writer) (frames s.high) (item.frame ∷ [])
    ∙ ap (λ (r : List Frame). held s.writer ++ r) (sym (frames-append s.high (item ∷ [])))
    ∙ sym (ap₂ (λ (x : Writer) (h : List Outbound). held x ++ frames h) w e)

-- A frame of low priority that comes into the other queue.
passed :
    (item : Outbound) (s t : SocketCan)
    → IsLow item
    → inside s ≡ inside t
    → IsBalanced s (Event.accepted item.frame ∷ []) t
unfolding IsBalanced
passed item s t low e =
    ap (λ (r : List Frame). inside s ++ (r ++ [])) (nothing item.frame low)
    ∙ append-nil (inside s)
    ∙ e

-- An event of a frame that neither comes in nor leaves.
pub silent :
    (e : Event) (s t : SocketCan)
    → entry e ≡ []
    → exit e ≡ []
    → inside s ≡ inside t
    → IsBalanced s (e ∷ []) t
unfolding IsBalanced
silent e s t no_entry no_exit h = rw (no_entry, no_exit) (append-nil (inside s) ∙ h)

pub offer-IsBalanced :
    (done_first : Bool) (item : Outbound) (s : SocketCan)
    → IsBalanced s (offer done_first item s).0 (offer done_first item s).1
unfolding offer
offer-IsBalanced done_first item s = elim (Bool-cases (is_low_priority item.frame)) [
  | inl low ↦ elim (Bool-cases (sends done_first s.low s)) [
    | inl room ↦ simp (low, room) (passed item s (record s { low = s.low ++ (item ∷ []) }) low refl)
    | inr none_left ↦ elim (Bool-cases s.done) [
      | inl over ↦
          simp (low, none_left) (simp over (silent (Event.refused item.frame) s s refl refl refl))
      | inr on ↦
          simp (low, none_left) (simp on (silent (Event.dropped item.frame) s s refl refl refl))
    ]
  ]
  | inr high ↦ elim (Bool-cases (sends done_first s.high s)) [
    | inl room ↦
        simp (high, room) (grown item s (record s { high = s.high ++ (item ∷ []) }) high refl refl)
    | inr none_left ↦ elim (Bool-cases s.done) [
      | inl over ↦
          simp (high, none_left) (simp over (silent (Event.refused item.frame) s s refl refl refl))
      | inr on ↦
          simp (high, none_left)
            (simp on (same s (record s { done = false; blocked = s.blocked ++ (item ∷ []) }) refl))
    ]
  ]
]

-- The writer's frame leaves.
pub left :
    (e : Event) (item : Outbound) (s t : SocketCan)
    → entry e ≡ []
    → exit e ≡ if_high item.frame
    → held s.writer ≡ if_high item.frame
    → held t.writer ≡ []
    → t.high ≡ s.high
    → IsBalanced s (e ∷ []) t
unfolding IsBalanced
left e item s t no_entry gone had has rest =
    let out : (exit e ++ []) ++ (held t.writer ++ frames t.high)
        ≡ if_high item.frame ++ frames s.high =
      ap₂ (λ (a b : List Frame). (a ++ []) ++ b) gone
        (ap₂ (λ (w : List Frame) (h : List Outbound). w ++ frames h) has rest)
      ∙ ap (λ (a : List Frame). a ++ frames s.high) (append-nil (if_high item.frame)) in
    rw no_entry (append-nil (inside s) ∙ ap (λ (a : List Frame). a ++ frames s.high) had ∙ sym out)

pub requeue-IsBalanced :
    (end_first : Bool) (item : Outbound) (r : ℕ) (s : SocketCan)
    → IsLow item
    → IsBalanced s (requeue end_first item r s).0 (requeue end_first item r s).1
unfolding requeue
requeue-IsBalanced end_first item r s low =
    elim (Bool-cases (ltb (length s.low) queue_size && not (s.ended r && end_first))) [
      | inl room ↦ simp room (same s (record s { low = s.low ++ (item ∷ []) }) refl)
      | inr none_left ↦ elim (Bool-cases (s.ended r)) [
        | inl over ↦
            simp none_left (
              simp over
                (silent (Event.abandoned item.frame) s s refl (nothing item.frame low) refl))
        | inr on ↦ simp none_left (simp on (silent (Event.lost item.frame) s s refl refl refl))
      ]
    ]

pub write_queued_frame-IsBalanced :
    (answer : Answer) (now later : ℕ) (item : Outbound) (s : SocketCan)
    → s.writer ≡ Writer.sending item
    → IsBalanced s
        (write_queued_frame answer now later item s).0
        (write_queued_frame answer now later item s).1
unfolding write_queued_frame record_outbound_lag retry_policy
write_queued_frame-IsBalanced Answer.taken now later item s here =
    left (Event.sent item.frame) item s _ refl refl (ap held here) refl refl
write_queued_frame-IsBalanced Answer.broken now later item s here =
    left (Event.failed item.frame) item s (record s { writer = Writer.top }) refl refl
      (ap held here) refl refl
write_queued_frame-IsBalanced Answer.full now later item s here =
    let had = ap held here in
    elim (Bool-cases (is_low_priority item.frame)) [
      | inl low ↦
          simp low
            (same s _ (ap (λ (r : List Frame). r ++ frames s.high) (had ∙ nothing item.frame low)))
      | inr high ↦ simp high (same s _ (ap (λ (r : List Frame). r ++ frames s.high) had))
    ]

-- The writer takes the first of the high queue.
pub takes :
    (now : ℕ) (item : Outbound) (items : List Outbound) (s : SocketCan)
    → All IsHigh s.high
    → held s.writer ≡ []
    → s.high ≡ item ∷ items
    → IsBalanced s [] (record s { high = items; writer = Writer.sending (stamp now item) })
takes now item items s all free e =
    let high : IsHigh item × All IsHigh items = subst (All IsHigh) e all in
    same s (record s { high = items; writer = Writer.sending (stamp now item) })
      (ap₂ (λ (w : List Frame) (h : List Outbound). w ++ frames h) free e
        ∙ ap (λ (r : List Frame). r ++ frames items) (sym (only item.frame high.0)))

pub look_at-IsBalanced :
    (now : ℕ) (items : List Outbound) (s : SocketCan)
    → All IsHigh s.high
    → s.writer ≡ Writer.looking
    → s.high ≡ items
    → IsBalanced s [] (look_at now items s)
look_at-IsBalanced now [] s all here e =
    same s (record s { writer = Writer.waiting })
      (ap (λ (w : Writer). held w ++ frames s.high) here)
look_at-IsBalanced now (item ∷ items) s all here e = takes now item items s all (ap held here) e

pub free_writer :
    (s : SocketCan) (w : Writer)
    → held s.writer ≡ []
    → held w ≡ []
    → IsBalanced s [] (record s { writer = w })
free_writer s w here there =
    same s (record s { writer = w })
      (ap (λ (r : List Frame). r ++ frames s.high) (here ∙ sym there))

pub held-check : (b : Bool) → held (if b then Writer.gone else Writer.looking) ≡ []
held-check true = refl
held-check false = refl
