-- ===== src/Subscribe/Registry.antt =====
-- internal/subscribe/subscribe.go: the registries that a manager keeps, under subscriptions.
use n2k.Prelude.{
  bytes_eq, ℕ, ◌+◌, ◌%◌, ◌^◌, ◌≤◌, ◌<◌, ◌≡◌, subst, inl, inr, List, [], ◌∷◌, ◌++◌, some, arith,
  Bool-cases, length, length-append, All,
}
use mathlib.Core.Option.{some-injective}
use n2k.Subscribe.{
  Name, Callback, TrackedSub, SubscribeManager, new_manager, entries, add_subscription,
}

-- The ids that were given: up to the last.
abbrev pub IsOld : ℕ → TrackedSub → Type 0
IsOld last t = t.sub_id ≤ last

-- What every manager satisfies that subscriptions and cancellations lead to: it has given each id that it
-- holds, and no name has an empty list.
pub record IsValid (s : SubscribeManager) : Type 0 where
  pub all_old : All (IsOld s.last_sub_id) s.all
  pub singles_old : (name : Name) → All (IsOld s.last_sub_id) (entries (s.singles name))
  pub no_empty : (name : Name) (xs : List TrackedSub) → s.singles name ≡ some xs → 0 < length xs

pub new_manager-IsValid : IsValid new_manager
new_manager-IsValid = record { all_old = tt; singles_old = λ name. tt; no_empty = λ name xs e. cc }

older : (a b : ℕ) (xs : List TrackedSub) → a ≤ b → All (IsOld a) xs → All (IsOld b) xs
older a b [] h all = tt
older a b (x ∷ xs) h (first, all) = (omega arith, older a b xs h all)

grown :
    (a b : ℕ) (xs : List TrackedSub) (x : TrackedSub)
    → a ≤ b
    → All (IsOld a) xs
    → x.sub_id ≤ b
    → All (IsOld b) (xs ++ (x ∷ []))
grown a b [] x h all new = (new, tt)
grown a b (y ∷ xs) x h (first, all) new = (omega arith, grown a b xs x h all new)

longer : (xs : List TrackedSub) (x : TrackedSub) → 0 < length (xs ++ (x ∷ []))
longer xs x = omega (arith, length-append xs (x ∷ []))

-- A subscription keeps the manager valid, while the ids do not wrap.
pub add_subscription-IsValid :
    (name : Name) (callback : Callback) (s : SubscribeManager)
    → IsValid s
    → s.last_sub_id + 1 < 2 ^ 64
    → IsValid (add_subscription name callback s).0
unfolding add_subscription
add_subscription-IsValid name callback s v more =
    let next : (s.last_sub_id + 1) % 2 ^ 64 ≡ s.last_sub_id + 1 = omega arith in
    elim (Bool-cases (bytes_eq name [])) [
      | inl global ↦
          rw (global, next)
            (record {
              all_old = grown s.last_sub_id _ s.all _ (omega arith) v.all_old (omega arith);
              singles_old = λ other. older s.last_sub_id _ _ (omega arith) (v.singles_old other);
              no_empty = v.no_empty;
            })
      | inr single ↦
          rw (single, next)
            (record {
              all_old = older s.last_sub_id _ s.all (omega arith) v.all_old;
              singles_old = λ other. elim (Bool-cases (bytes_eq other name)) [
                | inl same ↦
                    rw same
                      (grown s.last_sub_id _ _ _ (omega arith) (v.singles_old name) (omega arith))
                | inr differ ↦
                    rw differ (older s.last_sub_id _ _ (omega arith) (v.singles_old other))
              ];
              no_empty = λ other xs e. elim (Bool-cases (bytes_eq other name)) [
                | inl same ↦
                    subst (λ ys. 0 < length ys) (some-injective _ xs (rw same at e)) (longer _ _)
                | inr differ ↦ v.no_empty other xs (rw differ at e)
              ];
            })
    ]
