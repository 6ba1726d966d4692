-- ===== src/Service/Metrics/Tests.antt =====
-- Runs of internal/n2kinternal/processing_metrics.go.
use mathlib.Core.List.{Pairwise, mem-cons, not-mem-nil}
use mathlib.Core.List.Perm
use mathlib.Core.Logic.Or
use n2k.Prelude.{◌≡◌, refl, Bool, List, [], ◌∷◌, ◌++◌, if◌then◌else◌, Bytes, none}
use n2k.Service.Metrics.{
  PgnCount, Text, count_pgn, observe_frame, snapshot, new_processing_metrics, pgn_before,
  format_top_pgns,
}
use n2k.Service.Metrics.Top.{Sorts, NotAfter, format_top_pgns-perm}

insert : {A : Type 0} → (A → A → Bool) → A → List A → List A
insert before x [] = x ∷ []
insert before x (y ∷ ys) =
    let rest = insert before x ys in if before y x then y ∷ rest else x ∷ y ∷ ys

insertion_sort : {A : Type 0} → (A → A → Bool) → List A → List A
insertion_sort before [] = []
insertion_sort before (x ∷ xs) = insert before x (insertion_sort before xs)

joined : Bytes → List Bytes → Bytes
joined sep [] = []
joined sep (x ∷ []) = x
joined sep (x ∷ y ∷ xs) = x ++ sep ++ joined sep (y ∷ xs)

-- A group and a count are printed as two bytes.
abbrev text : Text
text = record {
  sort = insertion_sort;
  pgn_text = λ c. c.pgn ∷ 61 ∷ c.count ∷ [];
  callback_text = λ c. c.name;
  join = joined;
}

abbrev rare : PgnCount
rare = record { pgn = 7; count = 1 }

abbrev often : PgnCount
often = record { pgn = 9; count = 4 }

counted : count_pgn 9 (count_pgn 7 (count_pgn 9 [])) ≡ record { pgn = 9; count = 2 } ∷ rare ∷ []
unfolding count_pgn
counted = refl

printed : format_top_pgns text (rare ∷ often ∷ []) 5 ≡ 9 ∷ 61 ∷ 4 ∷ 44 ∷ 7 ∷ 61 ∷ 1 ∷ []
unfolding format_top_pgns pgn_before insertion_sort insert joined
printed = refl

snapshot_resets :
    (snapshot text 90 (observe_frame none 5 (new_processing_metrics 30))).1
    ≡ new_processing_metrics 90
unfolding snapshot observe_frame new_processing_metrics
snapshot_resets = refl

in_order : Pairwise NotAfter (often ∷ rare ∷ [])
unfolding pgn_before
in_order =
    Pairwise.cons
      (λ x m. Or.elim (hlevel) (mem-cons.0 m) (λ e. rw e refl) (λ n. absurd (not-mem-nil n)))
      (Pairwise.cons (λ x n. absurd (not-mem-nil n)) Pairwise.nil)

first-Sorts : Sorts text (rare ∷ often ∷ [])
unfolding pgn_before insertion_sort insert
first-Sorts = record { same = Perm.swap rare often []; ordered = in_order }

second-Sorts : Sorts text (often ∷ rare ∷ [])
unfolding pgn_before insertion_sort insert
second-Sorts = record { same = Perm.refl _; ordered = in_order }

format_top_pgns-perm_example :
    format_top_pgns text (rare ∷ often ∷ []) 5 ≡ format_top_pgns text (often ∷ rare ∷ []) 5
format_top_pgns-perm_example =
    format_top_pgns-perm text (rare ∷ often ∷ []) (often ∷ rare ∷ []) 5 first-Sorts second-Sorts
      (Perm.swap often rare [])
