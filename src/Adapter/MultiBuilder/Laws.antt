-- ===== src/Adapter/MultiBuilder/Laws.antt =====
-- internal/adapter/canadapter/multibuilder.go: `Add` on any frame of eight bytes.
use n2k.Prelude.{
  ℕ, ◌<◌, ◌≡◌, subst, inl, inr, Bool, true, false, ◌&&◌, Option, none, some, arith, ◌==◌,
  if◌then◌else◌, Bool-cases, Option-cases, length,
}
use mathlib.Core.Option.{some-injective}
use n2k.Packet.{Packet}
use n2k.Packet.Laws.{numbered, get_seq_frame_lem}
use n2k.Adapter.Sequence
use n2k.Adapter.Sequence.{Sequence, complete, Gathered, sparse, gathered, finish}
use n2k.Adapter.Sequence.Invariant.{IsValid, add-IsValid, complete-ne-none, new_sequence-IsValid}
use n2k.Adapter.MultiBuilder.{Sequences, update, seq_for, add}

-- Every sequence in progress is valid.
abbrev pub AllValid : Sequences → Type 0
AllValid m = (a b c : ℕ) (s : Sequence) → m a b c ≡ some s → IsValid s

pub seq_for-IsValid : (m : Sequences) (p : Packet) → AllValid m → IsValid (seq_for m p)
unfolding seq_for
seq_for-IsValid m p v = elim (Option-cases (m p.info.source_id p.info.pgn p.seq_id)) [
  | inl e ↦ rw (e, seq_for) new_sequence-IsValid
  | inr (s, e) ↦ rw (e, seq_for) (v _ _ _ s e)
]

pub update-AllValid :
    (m : Sequences) (source pgn seq : ℕ) (entry : Option Sequence)
    → AllValid m
    → ((s : Sequence) → entry ≡ some s → IsValid s)
    → AllValid (update m source pgn seq entry)
update-AllValid m source pgn seq entry v w a b c s e =
    elim (Bool-cases (a == source && (b == pgn && c == seq))) [
      | inl here ↦ w s (rw here at e)
      | inr there ↦ v a b c s (rw there at e)
    ]

-- One call of `add`, from what its steps return.
pub add_steps :
    (m : Sequences) (p p' : Packet) (s : Sequence) (done : Bool)
    → 0 < length p.payload
    → Sequence.add (seq_for m (numbered p)) (numbered p) ≡ some s
    → complete s (numbered p) ≡ some (done, p')
    → add m p
      ≡ some (update m p'.info.source_id p'.info.pgn p'.seq_id (if done then none else some s), p')
unfolding add
add_steps m p p' s done full added completed = rw (get_seq_frame_lem p full, added, completed)

entry-IsValid :
    (done : Bool) (s : Sequence)
    → IsValid s
    → (t : Sequence) → (if done then none else some s) ≡ some t
    → IsValid t
entry-IsValid true s v t e = cc
entry-IsValid false s v t e = subst IsValid (some-injective s t e) v

-- `add` never panics on a frame of eight bytes, and every sequence stays valid.
pub add-AllValid :
    (m : Sequences) (p : Packet)
    → AllValid m
    → length p.payload ≡ 8
    → (r : Sequences × Packet) × (add m p ≡ some r) × AllValid r.0
add-AllValid m p v eight =
    let q = numbered p in
    let (s, added, sv) = add-IsValid (seq_for m q) q (seq_for-IsValid m q v) eight (omega arith) in
    elim (Option-cases (complete s q)) [
      | inl stuck ↦ absurd (complete-ne-none s q sv stuck)
      | inr ((done, p'), completed) ↦ (
        (update m p'.info.source_id p'.info.pgn p'.seq_id (if done then none else some s), p'),
        add_steps m p p' s done (omega arith) added completed,
        update-AllValid m _ _ _ _ v (entry-IsValid done s sv),
      )
    ]
