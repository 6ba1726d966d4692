-- ===== src/Service/Metrics/Top.antt =====
-- internal/n2kinternal/processing_metrics.go, `formatTopPGNs`: Go's order of a map's entries is any, and what is
-- printed does not depend on it.
use mathlib.Core.Logic.Or
use mathlib.Core.List.{Perm, Pairwise, Mem, mem-cons, mem-cons_self}
use mathlib.Core.List.Perm
use n2k.Prelude.{ℕ, ◌≡◌, sym, ap, ap₂, subst, false, List, [], ◌∷◌, map, arith}
use n2k.Service.Metrics.{PgnCount, Text, pgn_before, limited, format_top_pgns}

PgnCount-set : IsSet PgnCount
PgnCount-set = hlevel

-- The entry `y` does not come before `x`.
abbrev pub NotAfter : PgnCount → PgnCount → Type 0
NotAfter x y = pgn_before y x ≡ false

antisym : (x y : PgnCount) → NotAfter x y → NotAfter y x → x ≡ y
unfolding pgn_before
antisym x y h k =
    let same : (x.count ≡ y.count) × (x.pgn ≡ y.pgn) = ground arith in
    ap₂ (λ (c p : ℕ). record { pgn = p; count = c }) same.0 same.1

sorted_unique :
    (xs ys : List PgnCount) → Pairwise NotAfter xs → Pairwise NotAfter ys → Perm xs ys → xs ≡ ys
sorted_unique [] ys p q e = Perm.nil-eq e
sorted_unique (x ∷ xs) [] p q e = Perm.eq-nil e
sorted_unique (x ∷ xs) (y ∷ ys) (Pairwise.cons h p) (Pairwise.cons k q) e =
    ap₂ ◌∷◌ same
      (sorted_unique xs ys p q (Perm.cons_inv (subst (λ z. Perm (x ∷ xs) (z ∷ ys)) (sym same) e)))
  where
    behind : Mem x ys → Mem y xs → x ≡ y
    behind m n = antisym x y (h y n) (k x m)

    same : x ≡ y
    same =
        Or.elim (PgnCount-set x y) (mem-cons.0 ((Perm.mem_iff e).0 (mem-cons_self))) (λ c. c)
          λ m.
            Or.elim (PgnCount-set x y) (mem-cons.0 ((Perm.mem_iff e).1 (mem-cons_self))) sym
              (behind m)

-- What `sort.Slice` promises of a slice: the same entries, none before one that it stands behind.
pub record Sorts (t : Text) (xs : List PgnCount) : Type 0 where
  pub same : Perm (t.sort pgn_before xs) xs
  pub ordered : Pairwise NotAfter (t.sort pgn_before xs)

-- Two orders of the entries of the map, which `sort.Slice` sorts by count and group, are printed alike: the text
-- does not depend on the order in which Go walks through the map.
pub format_top_pgns-perm :
    (t : Text) (xs ys : List PgnCount) (limit : ℕ)
    → Sorts t xs
    → Sorts t ys
    → Perm xs ys
    → format_top_pgns t xs limit ≡ format_top_pgns t ys limit
unfolding format_top_pgns
format_top_pgns-perm t xs ys limit f g e =
    let alike =
      sorted_unique _ _ f.ordered g.ordered (Perm.trans f.same (Perm.trans e (Perm.symm g.same))) in
    ap (λ zs. t.join (44 ∷ []) (map t.pgn_text (limited limit zs))) alike
