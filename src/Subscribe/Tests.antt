-- ===== src/Subscribe/Tests.antt =====
-- Runs of internal/subscribe/subscribe.go: a manager with one subscription to a struct and one to all.
use n2k.Prelude.{ℕ, ◌+◌, ◌<◌, ◌^◌, ◌≡◌, refl, true, false, [], ◌∷◌, ◌++◌, none, some, arith, map}
use n2k.Subscribe.{
  Name, Callback, func, struct_of, interface_of, SubscribeManager, new_manager, add_subscription,
  unsubscribe, unsubscribe_global, unsubscribe_struct, remove, no_struct_entry, call_list, plan,
  dispatch, handle_struct, entries,
}
use n2k.Subscribe.Registry.{IsValid, new_manager-IsValid, add_subscription-IsValid}
use n2k.Subscribe.Cancel.{unsubscribe-add_subscription}
use n2k.Subscribe.Reachable.{Reachable, at_start, subscribed, cancelled, Reachable-IsValid}
use n2k.Subscribe.Stale.{unsubscribe-unsubscribe}
use n2k.Subscribe.Calls.{handle_struct-add_subscription}

program : Unit {0}
unfolding add_subscription unsubscribe unsubscribe_global unsubscribe_struct remove call_list plan
    dispatch handle_struct
program = tt

-- Type 7 is called "Wind".
abbrev name_of : ℕ → Name
name_of t = 87 ∷ 105 ∷ 110 ∷ 100 ∷ []

abbrev on_wind : Callback
on_wind = func 1 (struct_of 7 ∷ [])

abbrev on_any : Callback
on_any = func 2 (interface_of 0 ∷ [])

abbrev one : SubscribeManager
one = (add_subscription [] on_any new_manager).0

abbrev two : SubscribeManager
two = (add_subscription (name_of 7) on_wind one).0

two_calls : handle_struct (λ t u. true) 7 name_of two ≡ (
  record { function = 1; by_pointer = false } ∷ record { function = 2; by_pointer = false } ∷ [],
  true,
)
unfolding program
two_calls = refl

one-IsValid : IsValid one
one-IsValid = add_subscription-IsValid [] on_any new_manager new_manager-IsValid (omega arith)

one_id : one.last_sub_id + 1 < 2 ^ 64
unfolding program
one_id = omega arith

two_reached : Reachable two
two_reached =
    subscribed (name_of 7) on_wind one (subscribed [] on_any new_manager at_start (omega arith))
      one_id

Reachable-IsValid_example : IsValid (unsubscribe 2 two).0
Reachable-IsValid_example = Reachable-IsValid (unsubscribe 2 two).0 (cancelled 2 two two_reached)

unsubscribe-add_subscription_example :
    let (added, id) = add_subscription (name_of 7) on_wind one in
    let (left, error) = unsubscribe id added in
    (error ≡ none) × (left.all ≡ one.all) × (left.singles (name_of 7) ≡ one.singles (name_of 7))
unsubscribe-add_subscription_example =
    unsubscribe-add_subscription (name_of 7) on_wind one (name_of 7) one-IsValid one_id

gets_through :
    (dispatch (λ t u. true) 7 (map (λ x. x.callback) (entries (one.singles (name_of 7))))).1 ≡ true
unfolding program
gets_through = refl

handle_struct-add_subscription_example :
    let before =
      dispatch (λ t u. true) 7 (map (λ x. x.callback) (entries (one.singles (name_of 7)))) in
    let after = dispatch (λ t u. true) 7 (map (λ x. x.callback) one.all) in
    handle_struct (λ t u. true) 7 name_of (add_subscription (name_of 7) on_wind one).0
    ≡ (before.0 ++ (record { function = 1; by_pointer = false } ∷ after.0), after.1)
handle_struct-add_subscription_example =
    handle_struct-add_subscription (λ t u. true) name_of 7 1 one refl gets_through

unsubscribe-unsubscribe_example :
    let (added, id) = add_subscription (name_of 7) on_wind one in
    (unsubscribe id (unsubscribe id added).0).1 ≡ some (no_struct_entry 2)
unfolding add_subscription
unsubscribe-unsubscribe_example = unsubscribe-unsubscribe (name_of 7) on_wind one one-IsValid one_id
