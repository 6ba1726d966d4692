-- ===== src/Subscribe/Calls.antt =====
-- internal/subscribe/subscribe.go, `HandleStruct`: the calls that a subscription adds.
use n2k.Prelude.{
  bytes_eq, bytes_eq_refl, ℕ, ◌≡◌, refl, ap, ◌∙◌, Bool, true, false, List, [], ◌∷◌, ◌++◌, map,
  append_assoc, ==_refl,
}
use n2k.Subscribe.{
  Name, Callback, func, struct_of, TrackedSub, SubscribeManager, entries, add_subscription,
  call_list, Call, Plan, skip, fail, call, plan, follow, dispatch, handle_struct,
}

callbacks : List TrackedSub → List Callback
callbacks ts = map (λ t. t.callback) ts

map-append {ℓ κ} :
    {A : Type ℓ} {B : Type κ} (f : A → B) (xs ys : List A) → map f (xs ++ ys) ≡ map f xs ++ map f ys
map-append f [] ys = refl
map-append f (x ∷ xs) ys = ap (λ r. f x ∷ r) (map-append f xs ys)

follow-append :
    (q : Plan) (xs ys both : List Call × Bool)
    → (xs.1 ≡ true → both ≡ (xs.0 ++ ys.0, ys.1))
    → (follow q xs).1 ≡ true
    → follow q both ≡ ((follow q xs).0 ++ ys.0, ys.1)
follow-append skip xs ys both h through = h through
follow-append fail xs ys both h through = cc
follow-append (call x) xs ys both h through = ap (follow (call x)) (h through)

module _ (implements : ℕ → ℕ → Bool) (t : ℕ) where
  -- Callbacks that get through are called before those behind them.
  dispatch-append :
      (xs ys : List Callback)
      → (dispatch implements t xs).1 ≡ true
      → dispatch implements t (xs ++ ys) ≡ (
        (dispatch implements t xs).0 ++ (dispatch implements t ys).0,
        (dispatch implements t ys).1,
      )
  unfolding dispatch
  dispatch-append [] ys through = refl
  dispatch-append (x ∷ xs) ys through =
      follow-append (plan implements t x) _ _ _ (dispatch-append xs ys) through

  -- A struct of type `t`, to which a function of its values is subscribed.
  module _ (name_of : ℕ → Name) (named : bytes_eq (name_of t) [] ≡ false) (f : ℕ)
      (s : SubscribeManager) where
    list_after :
        call_list (name_of t) (add_subscription (name_of t) (func f (struct_of t ∷ [])) s).0
        ≡ callbacks (entries (s.singles (name_of t)))
          ++ (func f (struct_of t ∷ []) ∷ callbacks s.all)
    unfolding call_list add_subscription callbacks
    list_after =
        rw (named, bytes_eq_refl (name_of t))
          (ap (λ cs. cs ++ callbacks s.all)
              (map-append (λ (x : TrackedSub). x.callback) (entries (s.singles (name_of t))) _)
            ∙ append_assoc (callbacks (entries (s.singles (name_of t))))
                (func f (struct_of t ∷ []) ∷ []) (callbacks s.all))

    planned :
        plan implements t (func f (struct_of t ∷ []))
        ≡ call (record { function = f; by_pointer = false })
    unfolding plan
    planned = rw (==_refl t)

-- A function of a struct's values that is subscribed to the struct is called with each such struct once
-- more, after the callbacks that were subscribed to the struct before, where those get through, and before the callbacks for
-- all structs; nothing else changes in the calls.
pub handle_struct-add_subscription :
    (implements : ℕ → ℕ → Bool) (name_of : ℕ → Name) (t f : ℕ) (s : SubscribeManager)
    → bytes_eq (name_of t) [] ≡ false
    → (dispatch implements t (map (λ x. x.callback) (entries (s.singles (name_of t))))).1 ≡ true
    → let before =
        dispatch implements t (map (λ x. x.callback) (entries (s.singles (name_of t)))) in
      let after = dispatch implements t (map (λ x. x.callback) s.all) in
      handle_struct implements t name_of
        (add_subscription (name_of t) (func f (struct_of t ∷ [])) s).0
      ≡ (before.0 ++ (record { function = f; by_pointer = false } ∷ after.0), after.1)
unfolding handle_struct callbacks dispatch
handle_struct-add_subscription implements name_of t f s named through =
    ap (dispatch implements t) (list_after implements t name_of named f s)
    ∙ dispatch-append implements t (callbacks (entries (s.singles (name_of t)))) _ through
    ∙ rw (planned implements t name_of named f s)
