-- ===== src/Node/Lists.antt =====
-- pkg/node/node.go, `mergePGNs`: the lists of groups that a node says it sends and receives.
use n2k.Prelude.{
  ℕ, ◌≡◌, refl, inl, inr, Bool, true, false, ◌&&◌, ◌||◌, not, List, [], ◌∷◌, ◌++◌, ◌==◌, arith,
  Bool-cases, ==_iff, subst,
}
use n2k.Node.Requests.{elem, merge_from, merge_pgns}

-- No group is in the list twice.
abbrev pub is_unique : List ℕ → Bool
is_unique [] = true
is_unique (x ∷ xs) = not (elem x xs) && is_unique xs

elem-append : (p : ℕ) (xs ys : List ℕ) → elem p (xs ++ ys) ≡ elem p xs || elem p ys
elem-append p [] ys = refl
elem-append p (x ∷ xs) ys = ground (arith, elem-append p xs ys)

is_unique-append :
    (p : ℕ) (xs : List ℕ)
    → elem p xs ≡ false
    → is_unique xs ≡ true
    → is_unique (xs ++ (p ∷ [])) ≡ true
is_unique-append p [] h u = refl
is_unique-append p (x ∷ xs) h u = ground (arith, elem-append x xs (p ∷ []), is_unique-append p xs)

elem-merge_from :
    (p : ℕ) (ps merged : List ℕ) → elem p (merge_from merged ps) ≡ elem p merged || elem p ps
elem-merge_from p [] merged = ground arith
elem-merge_from p (q ∷ ps) merged = elim (Bool-cases (elem q merged)) [
  | inl known ↦ rw known (elim (Bool-cases (q == p)) [
    | inl same ↦
        let here : elem p merged ≡ true =
          subst (λ (x : ℕ). elem x merged ≡ true) ((==_iff q p).0 same) known in
        ground (arith, here, same, elem-merge_from p ps merged)
    | inr differs ↦ ground (arith, differs, elem-merge_from p ps merged)
  ])
  | inr new ↦
      rw new
        (ground (arith, elem-merge_from p ps (merged ++ (q ∷ [])), elem-append p merged (q ∷ [])))
]

is_unique-merge_from :
    (ps merged : List ℕ) → is_unique merged ≡ true → is_unique (merge_from merged ps) ≡ true
is_unique-merge_from [] merged u = u
is_unique-merge_from (q ∷ ps) merged u = elim (Bool-cases (elem q merged)) [
  | inl known ↦ rw known (is_unique-merge_from ps merged u)
  | inr new ↦
      rw new (is_unique-merge_from ps (merged ++ (q ∷ [])) (is_unique-append q merged new u))
]

-- The groups of the two lists, each once.
pub merge_pgns_lem :
    (p : ℕ) (configured managed : List ℕ)
    → (elem p (merge_pgns configured managed) ≡ elem p configured || elem p managed)
      × (is_unique (merge_pgns configured managed) ≡ true)
unfolding merge_pgns
merge_pgns_lem p configured managed = (
  rw (elem-merge_from p managed (merge_from [] configured), elem-merge_from p configured []) refl,
  is_unique-merge_from managed _ (is_unique-merge_from configured [] refl),
)
