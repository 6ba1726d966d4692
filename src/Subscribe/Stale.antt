-- ===== src/Subscribe/Stale.antt =====
-- internal/subscribe/subscribe.go, `Unsubscribe`: the entry of `subs` that a cancellation leaves.
use n2k.Prelude.{
  bytes_eq, bytes_eq_refl, ◌+◌, ◌^◌, ◌<◌, ◌≡◌, subst, List, All, ◌∙◌, inl, inr, true, false, [],
  Option, none, some, if◌then◌else◌, Bool-cases, Option-cases, ==_refl,
}
use n2k.Subscribe.{
  Name, Callback, TrackedSub, SubscribeManager, SubscribeError, put_single, entries,
  add_subscription, unsubscribe, unsubscribe_global, unsubscribe_struct, global_not_tracked,
  no_struct_entry, struct_not_tracked,
}
use n2k.Subscribe.Registry.{IsOld, IsValid}
use n2k.Subscribe.Cancel.{
  remove-none, fresh, with_global, with_single, add_subscription-global, add_subscription-single,
  cancel_global, cancel_single, restored_lem,
}

-- The error of a second cancellation.
abbrev pub stale_error : SubscribeManager → Name → SubscribeError
stale_error s name =
    if bytes_eq name [] then global_not_tracked (s.last_sub_id + 1) else elim (s.singles name) [
      | none ↦ no_struct_entry (s.last_sub_id + 1)
      | some xs ↦ struct_not_tracked (s.last_sub_id + 1)
    ]

stale-single :
    (name : Name) (callback : Callback) (s : SubscribeManager) (o : Option (List TrackedSub))
    → IsValid s
    → bytes_eq name [] ≡ false
    → o ≡ s.singles name
    → (unsubscribe (s.last_sub_id + 1) (record (with_single s (fresh s name callback)) {
      singles = put_single (with_single s (fresh s name callback)).singles name o;
    })).1
      ≡ some (stale_error s name)
unfolding unsubscribe unsubscribe_struct
stale-single name callback s o v single back = elim (Option-cases (s.singles name)) [
  | inl missing ↦ rw (
    unsubscribe,
    ==_refl (s.last_sub_id + 1),
    single,
    unsubscribe_struct,
    bytes_eq_refl name,
    back ∙ missing,
    missing,
  )
  | inr (xs, listed) ↦ rw (
    unsubscribe,
    ==_refl (s.last_sub_id + 1),
    single,
    unsubscribe_struct,
    bytes_eq_refl name,
    back ∙ listed,
    remove-none s.last_sub_id xs (
        subst (λ (o : Option (List TrackedSub)). All (IsOld s.last_sub_id) (entries o)) listed
          (v.singles_old name)),
    listed,
  )
]

stale-global :
    (name : Name) (callback : Callback) (s : SubscribeManager)
    → IsValid s
    → bytes_eq name [] ≡ true
    → (unsubscribe
        (s.last_sub_id + 1)
        (record (with_global s (fresh s name callback)) { all = s.all })).1
      ≡ some (stale_error s name)
unfolding unsubscribe unsubscribe_global
stale-global name callback s v global = rw (
  unsubscribe,
  ==_refl (s.last_sub_id + 1),
  global,
  unsubscribe_global,
  remove-none s.last_sub_id s.all v.all_old,
)

-- On a valid manager whose ids do not wrap, cancelling a subscription a second time fails: for one to all
-- structs with the error that it is not tracked in their list, for one to a struct that has others with the
-- error that it is not tracked in the struct's list, for the only one to a struct with the error that the
-- struct has no list; never with the error of an id that is unknown.
pub unsubscribe-unsubscribe :
    (name : Name) (callback : Callback) (s : SubscribeManager)
    → IsValid s
    → s.last_sub_id + 1 < 2 ^ 64
    → let (added, id) = add_subscription name callback s in
      (unsubscribe id (unsubscribe id added).0).1 ≡ some (stale_error s name)
unsubscribe-unsubscribe name callback s v more = elim (Bool-cases (bytes_eq name [])) [
  | inl global ↦
      rw
        (
          add_subscription-global name callback s more global,
          cancel_global name callback s more v global,
        )
        (stale-global name callback s v global)
  | inr single ↦
      rw
        (
          add_subscription-single name callback s more single,
          cancel_single name callback s more v single,
        )
        (stale-single name callback s _ v single (restored_lem name callback s more v))
]
