-- ===== src/Subscribe/Reachable.antt =====
-- internal/subscribe/subscribe.go: the managers that subscriptions and cancellations lead to.
use n2k.Prelude.{
  bytes_eq, ℕ, ◌+◌, ◌^◌, ◌<◌, ◌≡◌, subst, inl, inr, List, [], Option, none, some, arith, ◌==◌,
  if◌then◌else◌, Bool-cases, Option-cases, length, All,
}
use mathlib.Core.Option.{some-injective}
use n2k.Subscribe.{
  Name, Callback, TrackedSub, SubscribeManager, new_manager, entries, add_subscription, remove,
  unsubscribe, unsubscribe_global, unsubscribe_struct,
}
use n2k.Subscribe.Registry.{IsOld, IsValid, new_manager-IsValid, add_subscription-IsValid}
use n2k.Subscribe.Cancel.{remove-All, remove-length}

unsubscribe_global-IsValid :
    (id : ℕ) (s : SubscribeManager) → IsValid s → IsValid (unsubscribe_global id s).0
unfolding unsubscribe_global
unsubscribe_global-IsValid id s v = elim (Option-cases (remove id s.all)) [
  | inl missing ↦ rw (unsubscribe_global, missing) v
  | inr (xs, left) ↦
      rw (unsubscribe_global, left)
        (record {
          all_old = remove-All s.last_sub_id id s.all xs left v.all_old;
          singles_old = v.singles_old;
          no_empty = v.no_empty;
        })
]

module _ (s : SubscribeManager) (v : IsValid s) (id : ℕ) (name : Name) (xs ys : List TrackedSub)
    (listed : s.singles name ≡ some xs) (left : remove id xs ≡ some ys) where
  abbrev rest : Option (List TrackedSub)
  rest = if length xs == 1 then none else some ys

  rest-old : All (IsOld s.last_sub_id) (entries rest)
  rest-old = elim (Bool-cases (length xs == 1)) [
    | inl last ↦ rw last tt
    | inr more ↦ rw more (
        remove-All s.last_sub_id id xs ys left (
          subst (λ (o : Option (List TrackedSub)). All (IsOld s.last_sub_id) (entries o)) listed
            (v.singles_old name)))
  ]

  rest-long : (zs : List TrackedSub) → rest ≡ some zs → 0 < length zs
  rest-long zs e = elim (Bool-cases (length xs == 1)) [
    | inl last ↦ absurd (let h : none ≡ some zs = rw last at e in cc)
    | inr more ↦
        subst (λ (r : List TrackedSub). 0 < length r) (some-injective ys zs (rw more at e))
          (ground (arith, more, remove-length id xs ys left, v.no_empty name xs listed))
  ]

unsubscribe_struct-IsValid :
    (id : ℕ) (name : Name) (s : SubscribeManager)
    → IsValid s
    → IsValid (unsubscribe_struct id name s).0
unfolding unsubscribe_struct
unsubscribe_struct-IsValid id name s v = elim (Option-cases (s.singles name)) [
  | inl missing ↦ rw (unsubscribe_struct, missing) v
  | inr (xs, listed) ↦ elim (Option-cases (remove id xs)) [
    | inl untracked ↦ rw (unsubscribe_struct, listed, untracked) v
    | inr (ys, left) ↦
        rw (unsubscribe_struct, listed, left)
          (record {
            all_old = v.all_old;
            singles_old = λ other. elim (Bool-cases (bytes_eq other name)) [
              | inl same ↦ rw same (rest-old s v id name xs ys listed left)
              | inr differ ↦ rw differ (v.singles_old other)
            ];
            no_empty = λ other zs e. elim (Bool-cases (bytes_eq other name)) [
              | inl same ↦ rest-long s v id name xs ys listed left zs (rw same at e)
              | inr differ ↦ v.no_empty other zs (rw differ at e)
            ];
          })
  ]
]

unsubscribe-IsValid : (id : ℕ) (s : SubscribeManager) → IsValid s → IsValid (unsubscribe id s).0
unfolding unsubscribe
unsubscribe-IsValid id s v = elim (Option-cases (s.subs id)) [
  | inl unknown ↦ rw (unsubscribe, unknown) v
  | inr (ts, found) ↦ elim (Bool-cases (bytes_eq ts.struct_name [])) [
    | inl global ↦ rw (unsubscribe, found, global) (unsubscribe_global-IsValid ts.sub_id s v)
    | inr single ↦
        rw (unsubscribe, found, single) (unsubscribe_struct-IsValid ts.sub_id ts.struct_name s v)
  ]
]

-- A manager that subscriptions, whose ids do not wrap, and cancellations lead to.
pub data Reachable : SubscribeManager → Type 0 where
  at_start : Reachable new_manager
  subscribed :
      (name : Name) (callback : Callback) (s : SubscribeManager)
      → Reachable s
      → s.last_sub_id + 1 < 2 ^ 64
      → Reachable (add_subscription name callback s).0
  cancelled : (id : ℕ) (s : SubscribeManager) → Reachable s → Reachable (unsubscribe id s).0

-- Every manager that subscriptions, whose ids do not wrap, and cancellations lead to is valid: it has given
-- each id that its lists hold, and no name has an empty list.
pub Reachable-IsValid : (s : SubscribeManager) → Reachable s → IsValid s
Reachable-IsValid _ at_start = new_manager-IsValid
Reachable-IsValid _ (subscribed name callback s r more) =
    add_subscription-IsValid name callback s (Reachable-IsValid s r) more
Reachable-IsValid _ (cancelled id s r) = unsubscribe-IsValid id s (Reachable-IsValid s r)
