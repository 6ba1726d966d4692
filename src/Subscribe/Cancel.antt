-- ===== src/Subscribe/Cancel.antt =====
-- internal/subscribe/subscribe.go, `Unsubscribe`: what it takes out of the registries.
use n2k.Prelude.{
  bytes_eq, bytes_eq_refl, bytes_eq-path, ℕ, ◌+◌, ◌%◌, ◌^◌, ◌<◌, ◌≡◌, refl, sym, subst, ap, ◌∙◌,
  inl, inr, ◌⊎◌, true, false, List, [], ◌∷◌, ◌++◌, Option, none, some, arith, ◌==◌, if◌then◌else◌,
  Bool-cases, Option-cases, length, length-append, All, ==_refl, ne→==,
}
use mathlib.Core.Option.{some-injective}
use n2k.Subscribe.{
  Name, Callback, TrackedSub, SubscribeManager, put_single, entries, add_subscription, remove,
  unsubscribe, unsubscribe_global, unsubscribe_struct,
}
use n2k.Subscribe.Registry.{IsOld, IsValid}

-- Taking out an id that comes after all others.
remove-last :
    (last : ℕ) (xs : List TrackedSub) (x : TrackedSub)
    → All (IsOld last) xs
    → x.sub_id ≡ last + 1
    → remove (last + 1) (xs ++ (x ∷ [])) ≡ some xs
unfolding remove
remove-last last [] x all new = rw (new, ==_refl (last + 1))
remove-last last (y ∷ xs) x (old, all) new =
    rw (ne→== y.sub_id (last + 1) (λ e. absurd (omega arith)), remove-last last xs x all new)

pub remove-none :
    (last : ℕ) (xs : List TrackedSub) → All (IsOld last) xs → remove (last + 1) xs ≡ none
unfolding remove
remove-none last [] all = refl
remove-none last (y ∷ xs) (old, all) =
    rw (ne→== y.sub_id (last + 1) (λ e. absurd (omega arith)), remove-none last xs all)

-- The first subscription goes, or one of the others.
remove_cases :
    (id : ℕ) (x : TrackedSub) (xs ys : List TrackedSub)
    → remove id (x ∷ xs) ≡ some ys
    → (xs ≡ ys) ⊎ ((zs : List TrackedSub) × (remove id xs ≡ some zs) × (x ∷ zs ≡ ys))
unfolding remove
remove_cases id x xs ys e = elim (Bool-cases (x.sub_id == id)) [
  | inl here ↦ inl (some-injective xs ys (simp (here, remove) at e))
  | inr there ↦ elim (Option-cases (remove id xs)) [
    | inl none_left ↦ absurd (let h : none ≡ some ys = simp (there, none_left, remove) at e in cc)
    | inr (zs, left) ↦ inr (zs, left, some-injective (x ∷ zs) ys (simp (there, left, remove) at e))
  ]
]

pub remove-All :
    (last id : ℕ) (xs ys : List TrackedSub)
    → remove id xs ≡ some ys
    → All (IsOld last) xs
    → All (IsOld last) ys
unfolding remove
remove-All last id [] ys e all = cc
remove-All last id (x ∷ xs) ys e (first, all) = elim (remove_cases id x xs ys e) [
  | inl same ↦ subst (All (IsOld last)) same all
  | inr (zs, left, same) ↦ subst (All (IsOld last)) same (first, remove-All last id xs zs left all)
]

pub remove-length :
    (id : ℕ) (xs ys : List TrackedSub) → remove id xs ≡ some ys → length xs ≡ length ys + 1
unfolding remove
remove-length id [] ys e = cc
remove-length id (x ∷ xs) ys e = elim (remove_cases id x xs ys e) [
  | inl same ↦ omega (arith, ap length same)
  | inr (zs, left, same) ↦ omega (arith, ap length same, remove-length id xs zs left)
]

-- `unsubscribe` from what its lookups return.
unsubscribe-global :
    (id : ℕ) (s : SubscribeManager) (ts : TrackedSub) (xs : List TrackedSub)
    → s.subs id ≡ some ts
    → bytes_eq ts.struct_name [] ≡ true
    → remove ts.sub_id s.all ≡ some xs
    → unsubscribe id s ≡ (record s { all = xs }, none)
unfolding unsubscribe unsubscribe_global
unsubscribe-global id s ts xs found global left =
    simp (unsubscribe, found, global, unsubscribe_global, left)

unsubscribe-single :
    (id : ℕ) (s : SubscribeManager) (ts : TrackedSub) (xs ys : List TrackedSub)
    → s.subs id ≡ some ts
    → bytes_eq ts.struct_name [] ≡ false
    → s.singles ts.struct_name ≡ some xs
    → remove ts.sub_id xs ≡ some ys
    → unsubscribe id s ≡ (
      record s {
        singles = put_single s.singles ts.struct_name (if length xs == 1 then none else some ys);
      },
      none,
    )
unfolding unsubscribe unsubscribe_struct
unsubscribe-single id s ts xs ys found single listed left =
    simp (unsubscribe, found, single, unsubscribe_struct, listed, left)

-- The manager with a new subscription, and the subscription.
abbrev pub fresh : SubscribeManager → Name → Callback → TrackedSub
fresh s name callback = record {
  sub_id = s.last_sub_id + 1;
  struct_name = name;
  callback = callback;
}

abbrev pub with_global : SubscribeManager → TrackedSub → SubscribeManager
with_global s ts = record s {
  last_sub_id = s.last_sub_id + 1;
  subs = λ i. if i == s.last_sub_id + 1 then some ts else s.subs i;
  all = s.all ++ (ts ∷ []);
}

abbrev pub with_single : SubscribeManager → TrackedSub → SubscribeManager
with_single s ts = record s {
  last_sub_id = s.last_sub_id + 1;
  subs = λ i. if i == s.last_sub_id + 1 then some ts else s.subs i;
  singles =
      put_single s.singles ts.struct_name (some (entries (s.singles ts.struct_name) ++ (ts ∷ [])));
}

module _ (name : Name) (callback : Callback) (s : SubscribeManager)
    (more : s.last_sub_id + 1 < 2 ^ 64) where
  next : (s.last_sub_id + 1) % 2 ^ 64 ≡ s.last_sub_id + 1
  next = omega arith

  pub add_subscription-global :
      bytes_eq name [] ≡ true
      → add_subscription name callback s
        ≡ (with_global s (fresh s name callback), s.last_sub_id + 1)
  unfolding add_subscription
  add_subscription-global global = rw (global, next)

  pub add_subscription-single :
      bytes_eq name [] ≡ false
      → add_subscription name callback s
        ≡ (with_single s (fresh s name callback), s.last_sub_id + 1)
  unfolding add_subscription
  add_subscription-single single = rw (single, next)

  module _ (v : IsValid s) where
    pub cancel_global :
        bytes_eq name [] ≡ true
        → unsubscribe (s.last_sub_id + 1) (with_global s (fresh s name callback))
          ≡ (record (with_global s (fresh s name callback)) { all = s.all }, none)
    cancel_global global =
        unsubscribe-global _ _ (fresh s name callback) s.all (rw (==_refl (s.last_sub_id + 1)))
          global (remove-last s.last_sub_id s.all _ v.all_old refl)

    -- The list that the map has at the name once the subscription is gone again.
    abbrev pub restored : Option (List TrackedSub)
    restored =
        let xs = entries (s.singles name) in
        if length (xs ++ (fresh s name callback ∷ [])) == 1 then none else some xs

    pub cancel_single :
        bytes_eq name [] ≡ false
        → unsubscribe (s.last_sub_id + 1) (with_single s (fresh s name callback)) ≡ (
          record (with_single s (fresh s name callback)) {
            singles = put_single (with_single s (fresh s name callback)).singles name restored;
          },
          none,
        )
    cancel_single single =
        unsubscribe-single _ _ (fresh s name callback) _ _ (rw (==_refl (s.last_sub_id + 1))) single
          (rw (bytes_eq_refl name)) (remove-last s.last_sub_id _ _ (v.singles_old name) refl)

    pub restored_lem : restored ≡ s.singles name
    restored_lem = elim (Option-cases (s.singles name)) [
      | inl empty ↦ rw empty refl
      | inr (xs, listed) ↦
          rw
            (
              listed,
              ne→== (length (xs ++ (fresh s name callback ∷ []))) 1 (λ e. absurd (
                  omega (
                    arith,
                    length-append xs (fresh s name callback ∷ []),
                    v.no_empty name xs listed,
                  ))),
            )
            refl
    ]

-- On a valid manager whose ids do not wrap, a subscription that is cancelled at once is cancelled without
-- error, and leaves the list for all structs and that of every name as they were.
pub unsubscribe-add_subscription :
    (name : Name) (callback : Callback) (s : SubscribeManager) (other : Name)
    → IsValid s
    → s.last_sub_id + 1 < 2 ^ 64
    → let (added, id) = add_subscription name callback s in
      let (left, error) = unsubscribe id added in
      (error ≡ none) × (left.all ≡ s.all) × (left.singles other ≡ s.singles other)
unsubscribe-add_subscription name callback s other v more = elim (Bool-cases (bytes_eq name [])) [
  | inl global ↦
      rw
        (
          add_subscription-global name callback s more global,
          cancel_global name callback s more v global,
        )
        (refl, refl, refl)
  | inr single ↦
      rw
        (
          add_subscription-single name callback s more single,
          cancel_single name callback s more v single,
        )
        (refl, refl, back)
]
  where
    back :
        put_single
          (put_single s.singles name
            (some (entries (s.singles name) ++ (fresh s name callback ∷ []))))
          name
          (restored name callback s more v)
          other
        ≡ s.singles other
    back = elim (Bool-cases (bytes_eq other name)) [
      | inl same ↦
          rw same (
            restored_lem name callback s more v
            ∙ ap s.singles (sym (bytes_eq-path other name same)))
      | inr differ ↦ rw differ
    ]
