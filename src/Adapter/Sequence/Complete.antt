-- ===== src/Adapter/Sequence/Complete.antt =====
-- internal/adapter/canadapter/sequence.go: when `complete` hands out the payload, and which.
use n2k.Prelude.{
  ℕ, zero, suc, ◌+◌, ◌*◌, ◌≤◌, ◌<◌, ◌≡◌, refl, ap, inl, inr, true, false, List, [], Option, some,
  arith, leb, Bool-cases, Option-cases, length, get_or, ne→==, le→leb, gt→leb,
}
use n2k.Prelude.Tabulate.{tabulate, length-tabulate}
use n2k.Packet.{Packet}
use n2k.Adapter.Sequence.{Sequence, gathered, consolidate, finish, complete}
use n2k.Adapter.Sequence.Progress.{contains, slot_of, Progress, calc_frames_required_lem}
use n2k.Adapter.CanAdapter.{calc_frames_required}
use n2k.Adapter.Window.{window, before, chunk, window-chunk, take-window}

-- The number of frames after frame 0.
abbrev pub frames_after : List ℕ → ℕ
frames_after d = calc_frames_required (length d)

module _ (d : List ℕ) where
  -- With the slots up to `last` filled, the bytes joined are those of all the frames.
  consolidate-tabulate :
      (f : ℕ → Option (List ℕ)) (last n i : ℕ)
      → ((j : ℕ) → j ≤ last → f j ≡ some (chunk d j))
      → i ≤ last
      → last < i + n
      → length d ≤ 7 * last + 6
      → ((j : ℕ) → j < last → 7 * j + 6 < length d)
      → consolidate (tabulate f i n) (length d) (window d 0 (before i))
        ≡ gathered (window d 0 (before (suc last)))
  unfolding consolidate
  consolidate-tabulate f last zero i has below above enough short = absurd (omega arith)
  consolidate-tabulate f last (suc n) i has below above enough short =
      rw (has i below, window-chunk d i, length-tabulate (λ j. get_or d j 0xFF) 0 (before (suc i)))
        (elim (Bool-cases (leb (length d) (7 * i + 6))) [
          | inl stop ↦ rw stop (ap (λ t. gathered (window d 0 (before (suc t)))) (at_end stop))
          | inr go ↦
              rw (go, place)
                (consolidate-tabulate f last n (suc i) has (more go) (omega arith) enough short)
        ])
    where
      place : i + 1 ≡ suc i
      place = omega arith

      at_end : leb (length d) (7 * i + 6) ≡ true → i ≡ last
      at_end stop = ground (arith, short i)

      more : leb (length d) (7 * i + 6) ≡ false → suc i ≤ last
      more go = ground arith

  module _ (s : Sequence) (p : Packet) (order : List ℕ) (pr : Progress d order s) where
    -- While frames are missing the packet stays incomplete.
    pub complete-short :
        length order < frames_after d → complete s p ≡ some (false, record p { complete = false })
    unfolding complete
    complete-short few = elim (Option-cases s.zero) [
      | inl idle ↦ absurd (pr.begun idle)
      | inr (z, busy) ↦ simp (complete, busy, gt→leb s.expected s.received less)
    ]
      where
        less : s.received < s.expected
        less =
            omega (
              arith,
              pr.total,
              pr.count,
              (calc_frames_required_lem (length d)).1 (length order) few,
            )

    -- The bytes of all the frames, once they are there.
    joined :
        frames_after d ≤ 31
        → ((k : ℕ) → 1 ≤ k → k ≤ frames_after d → contains order k ≡ true)
        → consolidate s.contents s.expected []
          ≡ gathered (window d 0 (before (suc (frames_after d))))
    joined few covers =
        rw (pr.slots, pr.total)
          (consolidate-tabulate (slot_of d order) (frames_after d) 32 0 has (omega arith)
            (omega arith) (calc_frames_required_lem (length d)).0
            (calc_frames_required_lem (length d)).1)
      where
        has : (j : ℕ) → j ≤ frames_after d → slot_of d order j ≡ some (chunk d j)
        has zero h = refl
        has (suc j) h =
            rw (ne→== (suc j) 0 (λ e. absurd (omega arith)), covers (suc j) (omega arith) h)

    finish-joined :
        frames_after d ≤ 31
        → ((k : ℕ) → 1 ≤ k → k ≤ frames_after d → contains order k ≡ true)
        → finish (consolidate s.contents s.expected []) s.expected p
          ≡ some (true, record p { payload = d; complete = true })
    finish-joined few covers =
        rw (joined few covers, pr.total)
          (unfold finish in rw (le→leb (length d) _ enough, take-window d _ fits))
      where
        fits : length d ≤ before (suc (frames_after d))
        fits = (calc_frames_required_lem (length d)).0

        enough : length d ≤ length (window d 0 (before (suc (frames_after d))))
        enough =
            omega (
              arith,
              fits,
              length-tabulate (λ j. get_or d j 0xFF) 0 (before (suc (frames_after d))),
            )

    -- With every frame there the packet gets the payload, cut to its length.
    pub complete-done :
        length order ≡ frames_after d
        → frames_after d ≤ 31
        → ((k : ℕ) → 1 ≤ k → k ≤ frames_after d → contains order k ≡ true)
        → complete s p ≡ some (true, record p { payload = d; complete = true })
    unfolding complete
    complete-done all few covers = elim (Option-cases s.zero) [
      | inl idle ↦ absurd (pr.begun idle)
      | inr (z, busy) ↦
          simp (complete, busy, le→leb s.expected s.received reached) (finish-joined few covers)
    ]
      where
        fits :
            (length d ≤ 7 * frames_after d + 6)
            × ((k : ℕ) → k < frames_after d → 7 * k + 6 < length d)
        fits = calc_frames_required_lem (length d)

        reached : s.expected ≤ s.received
        reached = omega (arith, pr.total, pr.count, fits.0)
