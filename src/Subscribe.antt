-- ===== src/Subscribe.antt =====
-- internal/subscribe/subscribe.go: who is called for which struct. A Go type is a number, and what reflection
-- says of it (its name, whether it implements an interface) is a parameter.
pub mod Registry
pub mod Cancel
pub mod Calls
pub mod Reachable
pub mod Stale
mod Tests
use n2k.Prelude.{
  Bytes, bytes_eq, ℕ, zero, suc, ◌+◌, map, Bool, true, false, ◌&&◌, not, List, [], ◌∷◌, ◌++◌,
  Option, none, some, ◌==◌, if◌then◌else◌, length, u64,
}

-- A struct's name as its bytes; the empty name stands for all structs.
abbrev pub Name : Type 0
Name = Bytes

-- What reflection tells of a callback's parameter, and of a callback.
pub data Param : Type 0 where
  pointer_to struct_of interface_of : ℕ → Param

pub data Callback : Type 0 where
  not_func : Callback
  func : ℕ → List Param → Callback

-- `trackedSub`. The code compares pointers to it; here the ids, each of which is given once.
pub record TrackedSub : Type 0 where
  pub sub_id : ℕ
  pub struct_name : Name
  pub callback : Callback

pub record SubscribeManager : Type 0 where
  pub subs : ℕ → Option TrackedSub
  pub singles : Name → Option (List TrackedSub)
  pub all : List TrackedSub
  pub last_sub_id : ℕ

-- `New`.
abbrev pub new_manager : SubscribeManager
new_manager = record { subs = λ _. none; singles = λ _. none; all = []; last_sub_id = 0 }

abbrev pub put_single :
    (Name → Option (List TrackedSub))
    → Name
    → Option (List TrackedSub)
    → Name
    → Option (List TrackedSub)
put_single m name entry other = if bytes_eq other name then entry else m other

-- The subscriptions of a name: none where the map has no entry.
abbrev pub entries : Option (List TrackedSub) → List TrackedSub
entries none = []
entries (some xs) = xs

abbrev pub tracked : SubscribeManager → Name → Callback → TrackedSub
tracked s name callback = record {
  sub_id = u64 (s.last_sub_id + 1);
  struct_name = name;
  callback = callback;
}

unfoldable pub add_subscription : Name → Callback → SubscribeManager → SubscribeManager × ℕ
add_subscription name callback s =
    let ts = tracked s name callback in
    let s' = record s {
      last_sub_id = ts.sub_id;
      subs = λ i. if i == ts.sub_id then some ts else s.subs i;
    } in
    if bytes_eq name [] then (record s' { all = s.all ++ (ts ∷ []) }, ts.sub_id) else (
      record s' {
        singles = put_single s.singles name (some (entries (s.singles name) ++ (ts ∷ [])));
      },
      ts.sub_id,
    )

pub data SubscribeError : Type 0 where
  not_found global_not_tracked no_struct_entry struct_not_tracked : ℕ → SubscribeError
  non_struct non_func wrong_parameter : SubscribeError

-- The list without the subscription of this id: `none` where it is not in the list.
unfoldable pub remove : ℕ → List TrackedSub → Option (List TrackedSub)
remove id [] = none
remove id (x ∷ xs) =
    let rest = remove id xs in
    if x.sub_id == id then some xs else elim rest [ none ↦ none | some ys ↦ some (x ∷ ys) ]

unfoldable pub unsubscribe_global : ℕ → SubscribeManager → SubscribeManager × Option SubscribeError
unsubscribe_global id s = elim (remove id s.all) [
  | none ↦ (s, some (global_not_tracked id))
  | some xs ↦ (record s { all = xs }, none)
]

unfoldable pub unsubscribe_struct :
    ℕ → Name → SubscribeManager → SubscribeManager × Option SubscribeError
unsubscribe_struct id name s = elim (s.singles name) [
  | none ↦ (s, some (no_struct_entry id))
  | some xs ↦ elim (remove id xs) [
    | none ↦ (s, some (struct_not_tracked id))
    | some ys ↦ (
      record s { singles = put_single s.singles name (if length xs == 1 then none else some ys) },
      none,
    )
  ]
]

-- The entry of `subs` stays.
unfoldable pub unsubscribe : ℕ → SubscribeManager → SubscribeManager × Option SubscribeError
unsubscribe id s = elim (s.subs id) [
  | none ↦ (s, some (not_found id))
  | some ts ↦
      if bytes_eq ts.struct_name []
      then unsubscribe_global ts.sub_id s
      else unsubscribe_struct ts.sub_id ts.struct_name s
]

module _ (name_of : ℕ → Name) where
  -- `value` is the type of a struct value, or `none` for a value that is no struct. A function without
  -- parameters makes `In(0)` panic.
  unfoldable pub subscribe_to_struct :
      Option ℕ
      → Callback
      → SubscribeManager
      → Option ((SubscribeManager × ℕ) × Option SubscribeError)
  subscribe_to_struct none callback s = some ((s, 0), some non_struct)
  subscribe_to_struct (some t) not_func s = some ((s, 0), some non_func)
  subscribe_to_struct (some t) (func f []) s = none
  subscribe_to_struct (some t) (func f (struct_of u ∷ ps)) s =
      if u == t
      then some (add_subscription (name_of t) (func f (struct_of u ∷ ps)) s, none)
      else some ((s, 0), some wrong_parameter)
  subscribe_to_struct (some t) (func f (pointer_to u ∷ ps)) s = some ((s, 0), some wrong_parameter)
  subscribe_to_struct (some t) (func f (interface_of u ∷ ps)) s =
      some ((s, 0), some wrong_parameter)

unfoldable pub subscribe_to_all_structs :
    Callback → SubscribeManager → Option ((SubscribeManager × ℕ) × Option SubscribeError)
subscribe_to_all_structs not_func s = some ((s, 0), some non_func)
subscribe_to_all_structs (func f []) s = none
subscribe_to_all_structs (func f (interface_of u ∷ ps)) s =
    some (add_subscription [] (func f (interface_of u ∷ ps)) s, none)
subscribe_to_all_structs (func f (struct_of u ∷ ps)) s = some ((s, 0), some wrong_parameter)
subscribe_to_all_structs (func f (pointer_to u ∷ ps)) s = some ((s, 0), some wrong_parameter)

-- The callbacks for a struct of this name, those for the struct first.
unfoldable pub call_list : Name → SubscribeManager → List Callback
call_list name s = map (λ t. t.callback) (entries (s.singles name)) ++ map (λ t. t.callback) s.all

-- A call: the function, and whether it gets a pointer to the struct.
pub record Call : Type 0 where
  pub function : ℕ
  pub by_pointer : Bool

-- The first parameter decides; `t.Call` with one argument panics where there are more parameters, or where
-- the struct does not implement the interface.
pub data Plan : Type 0 where
  skip fail : Plan
  call : Call → Plan

-- A round of the loop before the rest of it.
abbrev pub follow : Plan → List Call × Bool → List Call × Bool
follow skip rest = rest
follow fail rest = ([], false)
follow (call x) rest = (x ∷ rest.0, rest.1)

module _ (implements : ℕ → ℕ → Bool) (t : ℕ) where
  unfoldable pub plan : Callback → Plan
  plan not_func = fail
  plan (func f []) = skip
  plan (func f (pointer_to u ∷ ps)) =
      if not (u == t)
      then skip
      else if length ps == 0
      then call (record { function = f; by_pointer = true })
      else fail
  plan (func f (struct_of u ∷ ps)) =
      if not (u == t)
      then skip
      else if length ps == 0
      then call (record { function = f; by_pointer = false })
      else fail
  plan (func f (interface_of u ∷ ps)) =
      if length ps == 0 && implements t u
      then call (record { function = f; by_pointer = false })
      else fail

  -- The calls that are made, and whether the loop gets through without a panic.
  unfoldable pub dispatch : List Callback → List Call × Bool
  dispatch [] = ([], true)
  dispatch (c ∷ cs) = follow (plan c) (dispatch cs)

  unfoldable pub handle_struct : (ℕ → Name) → SubscribeManager → List Call × Bool
  handle_struct name_of s = dispatch (call_list (name_of t) s)
