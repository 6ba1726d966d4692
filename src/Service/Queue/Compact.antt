-- ===== src/Service/Queue/Compact.antt =====
-- internal/n2kinternal/n2kinternal.go, `messageQueue`: the messages that wait, and the slots before them.
use n2k.Prelude.{
  ℕ, zero, suc, ◌+◌, ◌-◌, ◌*◌, ◌≤◌, ◌<◌, ◌≡◌, refl, sym, subst, ap, ◌∙◌, ◌⊎◌, inl, inr, List, [],
  ◌∷◌, ◌++◌, none, some, ltb, ◌==◌, ◌&&◌, Bool-cases, Option-cases, length, get_elem?, set, take,
  drop, replicate, All, arith, length-append, length-set, length-drop, take-append, true, false,
}
use n2k.Service.Queue.{
  QueuedMessage, MessageQueue, blank, depth_locked, copy_down, clear_from, compact_locked, signal,
  take_head, dequeue, discard, got, wait,
}

module _ {M : Type 0} where
  -- The messages that wait, the oldest first.
  unfoldable pub waiting : MessageQueue M → List (QueuedMessage M)
  waiting q = drop q.head q.messages

  -- The slots before the head hold nothing, and are fewer than the messages that wait.
  pub record IsValid (q : MessageQueue M) : Type 0 where
    pub inside : q.head ≤ length q.messages
    pub cleared : All (λ m. m ≡ blank) (take q.head q.messages)
    pub compact : (q.head ≡ 0) ⊎ ((q.head < 1024) × (q.head * 2 < length q.messages))

  pub length-waiting : (q : MessageQueue M) → length (waiting q) ≡ depth_locked q
  unfolding waiting depth_locked
  length-waiting q = length-drop q.head q.messages

  take_prefix : (n : ℕ) (xs ys : List (QueuedMessage M)) → n ≡ length xs → take n (xs ++ ys) ≡ xs
  take_prefix n xs ys h = rw h (take-append xs ys)

  moved_lem :
      (h : ℕ) (xs : List (QueuedMessage M))
      → take (length xs - h) (clear_from (length xs - h) (copy_down h xs)) ≡ drop h xs
  moved_lem h xs =
      let n = length xs - h in
      let size : n ≡ length (drop h xs) = omega (arith, length-drop h xs) in
      ap (λ ys. take n (ys ++ replicate (length (copy_down h xs) - n) blank))
        (take_prefix n (drop h xs) _ size)
      ∙ take_prefix n (drop h xs) _ size

  pub waiting-compact_locked : (q : MessageQueue M) → waiting (compact_locked q) ≡ waiting q
  unfolding waiting compact_locked
  waiting-compact_locked q = elim (Bool-cases (q.head == 0)) [
    | inl e ↦ rw e
    | inr e ↦ elim (Bool-cases (ltb q.head 1024 && ltb (q.head * 2) (length q.messages))) [
      | inl f ↦ rw (e, f)
      | inr f ↦ rw (e, f) (moved_lem q.head q.messages)
    ]
  ]

  drop-append :
      (n : ℕ) (xs ys : List (QueuedMessage M)) → n ≤ length xs → drop n (xs ++ ys) ≡ drop n xs ++ ys
  drop-append zero xs ys h = refl
  drop-append (suc n) [] ys h = absurd (omega arith)
  drop-append (suc n) (x ∷ xs) ys h = drop-append n xs ys (omega arith)

  take-append_le :
      (n : ℕ) (xs ys : List (QueuedMessage M)) → n ≤ length xs → take n (xs ++ ys) ≡ take n xs
  take-append_le zero xs ys h = refl
  take-append_le (suc n) [] ys h = absurd (omega arith)
  take-append_le (suc n) (x ∷ xs) ys h = ap (λ r. x ∷ r) (take-append_le n xs ys (omega arith))

  drop_here :
      (h : ℕ) (xs : List (QueuedMessage M)) (m : QueuedMessage M)
      → get_elem? xs h ≡ some m
      → drop h xs ≡ m ∷ drop (suc h) xs
  drop_here zero [] m e = cc
  drop_here zero (x ∷ xs) m e = cc
  drop_here (suc h) [] m e = cc
  drop_here (suc h) (x ∷ xs) m e = drop_here h xs m e

  drop-set :
      (h : ℕ) (xs : List (QueuedMessage M)) (v : QueuedMessage M)
      → drop (suc h) (set xs h v) ≡ drop (suc h) xs
  drop-set zero [] v = refl
  drop-set zero (x ∷ xs) v = refl
  drop-set (suc h) [] v = refl
  drop-set (suc h) (x ∷ xs) v = drop-set h xs v

  All-take-set :
      (P : QueuedMessage M → Type 0) (h : ℕ) (xs : List (QueuedMessage M)) (v : QueuedMessage M)
      → P v
      → All P (take h xs)
      → All P (take (suc h) (set xs h v))
  All-take-set P zero [] v p a = tt
  All-take-set P zero (x ∷ xs) v p a = (p, tt)
  All-take-set P (suc h) [] v p a = tt
  All-take-set P (suc h) (x ∷ xs) v p a = (a.0, All-take-set P h xs v p a.1)

  compact_locked-IsValid :
      (q : MessageQueue M)
      → q.head ≤ length q.messages
      → All (λ m. m ≡ blank) (take q.head q.messages)
      → IsValid (compact_locked q)
  unfolding compact_locked
  compact_locked-IsValid q i c = elim (Bool-cases (q.head == 0)) [
    | inl e ↦ rw e (record { inside = i; cleared = c; compact = inl (ground arith) })
    | inr e ↦ elim (Bool-cases (ltb q.head 1024 && ltb (q.head * 2) (length q.messages))) [
      | inl f ↦ rw (e, f) (record { inside = i; cleared = c; compact = inr (ground arith) })
      | inr f ↦ rw (e, f) (record { inside = omega arith; cleared = tt; compact = inl refl })
    ]
  ]

  abbrev pub grown : QueuedMessage M → MessageQueue M → MessageQueue M
  grown m q = record q { messages = q.messages ++ (m ∷ []) }

  pub grown-IsValid : (m : QueuedMessage M) (q : MessageQueue M) → IsValid q → IsValid (grown m q)
  grown-IsValid m q v = record {
    inside = omega (arith, v.inside, length-append q.messages (m ∷ []));
    cleared = rw (take-append_le q.head q.messages (m ∷ []) v.inside) v.cleared;
    compact = ground (arith, v.compact, length-append q.messages (m ∷ []));
  }

  pub waiting-grown :
      (m : QueuedMessage M) (q : MessageQueue M)
      → IsValid q
      → waiting (grown m q) ≡ waiting q ++ (m ∷ [])
  unfolding waiting
  waiting-grown m q v = drop-append q.head q.messages (m ∷ []) v.inside

  pub signal-IsValid : (q : MessageQueue M) → IsValid q → IsValid (signal q)
  unfolding signal
  signal-IsValid q v = record { inside = v.inside; cleared = v.cleared; compact = v.compact }

  pub waiting-signal : (q : MessageQueue M) → waiting (signal q) ≡ waiting q
  unfolding waiting signal
  waiting-signal q = refl

  drop_past : (h : ℕ) (xs : List (QueuedMessage M)) → get_elem? xs h ≡ none → drop h xs ≡ []
  drop_past zero [] e = refl
  drop_past zero (x ∷ xs) e = cc
  drop_past (suc h) [] e = refl
  drop_past (suc h) (x ∷ xs) e = drop_past h xs e

  get_elem?-lt :
      (h : ℕ) (xs : List (QueuedMessage M)) (m : QueuedMessage M)
      → get_elem? xs h ≡ some m
      → h < length xs
  get_elem?-lt zero [] m e = cc
  get_elem?-lt zero (x ∷ xs) m e = omega arith
  get_elem?-lt (suc h) [] m e = cc
  get_elem?-lt (suc h) (x ∷ xs) m e = omega (arith, get_elem?-lt h xs m e)

  -- The queue that `dequeue` compacts.
  abbrev taken : MessageQueue M → MessageQueue M
  taken q = record q { messages = set q.messages q.head blank; head = suc q.head }

  taken-IsValid :
      (q : MessageQueue M)
      → IsValid q
      → q.head < length q.messages
      → IsValid (compact_locked (taken q))
  taken-IsValid q v h =
      compact_locked-IsValid (taken q) (omega (arith, length-set q.messages q.head blank))
        (All-take-set (λ m. m ≡ blank) q.head q.messages blank refl v.cleared)

  notify-compact_locked : (q : MessageQueue M) → (compact_locked q).notify ≡ q.notify
  unfolding compact_locked
  notify-compact_locked q = ground arith

  -- What a round of `dequeue` does: the oldest message goes, or the queue is empty.
  pub dequeue_lem :
      (q : MessageQueue M)
      → IsValid q
      → ((waiting q ≡ []) × (dequeue q ≡ wait))
        ⊎ ((m : QueuedMessage M) × (q' : MessageQueue M) × (dequeue q ≡ got m q')
            × (waiting q ≡ m ∷ waiting q')
            × IsValid q'
            × (q'.notify ≡ q.notify))
  unfolding dequeue take_head waiting depth_locked
  dequeue_lem q v = elim (Option-cases (get_elem? q.messages q.head)) [
    | inl e ↦
        let gone = drop_past q.head q.messages e in
        let size : ltb 0 (length q.messages - q.head) ≡ false =
          ground (arith, length-drop q.head q.messages) in
        inl (gone, rw size refl)
    | inr (m, e) ↦
        let h = get_elem?-lt q.head q.messages m e in
        let size : ltb 0 (length q.messages - q.head) ≡ true = ground arith in
        let next : q.head + 1 ≡ suc q.head = omega arith in
        inr (
          m,
          compact_locked (taken q),
          simp (dequeue, take_head, size, e, next),
          drop_here q.head q.messages m e
              ∙ ap (λ r. m ∷ r)
                  (sym (waiting-compact_locked (taken q) ∙ drop-set q.head q.messages blank)),
          taken-IsValid q v h,
          notify-compact_locked (taken q),
        )
  ]

  pub dequeue_got :
      (q q' : MessageQueue M) (m : QueuedMessage M)
      → IsValid q
      → dequeue q ≡ got m q'
      → IsValid q' × (waiting q ≡ m ∷ waiting q')
  dequeue_got q q' m v d = elim (dequeue_lem q v) [
    | inl (_, w) ↦ absurd cc
    | inr (m', r, d', w, v', _) ↦
        let same : r ≡ q' = cc in
        let first : m' ≡ m = cc in (subst IsValid same v', rw (sym first, sym same) w)
  ]

  pub discard-IsValid : (q : MessageQueue M) → IsValid (discard q).1
  unfolding discard
  discard-IsValid q = record { inside = omega arith; cleared = tt; compact = inl refl }
