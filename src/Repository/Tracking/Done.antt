-- ===== src/Repository/Tracking/Done.antt =====
-- `mark_chunk_tracking_done`: the counter counts each chunk once, and at most one answer completes
-- the task.
use cv_video_analysis.Common.{
  ◌∙◌, [], ltb, ◌&&◌, ◌∷◌, All-append, inr, ◌≤◌, inl, Bool-cases, leb, ◌<◌, All, some, ℕ, ◌+◌, ◌≡◌,
  refl, ap, Bool, true, false, not, Option, List, arith, if◌then◌else◌, if_elim, or_else, length,
}
use cv_video_analysis.Common.Texts.{Text}
use cv_video_analysis.Common.Indices.{
  length-lt_missing, length-add, IsDistinct-add, mem, mem-add, add, IsDistinct,
}
use cv_video_analysis.Common.Maps.{get_or-put, get_or-put_self}
use cv_video_analysis.Domain.Floats.{Floats}
use cv_video_analysis.Store.{TaskHash, Redis, task_at, chunk_at}
use cv_video_analysis.Store.Keys.{chunk_key, chunk_id, task_key}
use cv_video_analysis.Store.Keys.Canonical.{chunk_key_eq}
use cv_video_analysis.Repository.Tracking.{
  tracking_task_fields, mark_script, mark_chunk_tracking_done,
}

module _ {N : Type 0} (task : Text) where
  abbrev pub completed_of : Redis N → ℕ
  completed_of r = or_else (task_at r (task_key task)).tracking_completed_chunks 0

  abbrev pub total_of : Redis N → ℕ
  total_of r = or_else (task_at r (task_key task)).total_chunks 0

  -- The tracking results `got` are recorded.
  pub record Tracked (got : List ℕ) (r : Redis N) : Type 0 where
    pub recorded :
        (i : ℕ) → (chunk_at r (chunk_key task (chunk_id task i))).tracking_done ≡ mem i got
    pub counted : completed_of r ≡ length got
    pub distinct : IsDistinct got

add-All : {n : ℕ} (i : ℕ) (l : List ℕ) → i < n → All (λ j. j < n) l → All (λ j. j < n) (add i l)
add-All {n} i l lt h = elim (Bool-cases (mem i l)) [
  | inl old ↦ rw old h
  | inr new ↦ rw new (All-append (λ j. j < n) l (i ∷ []) h (lt, tt))
]

module _ {N : Type 0} (F : Floats N) (ttl : ℕ) (now : Text) (every : ℕ) (task : Text) where
  abbrev pub mark : ℕ → Text → Redis N → (Bool × Bool × ℕ × ℕ) × Redis N
  mark i payload r = mark_chunk_tracking_done F ttl now every task (chunk_id task i) payload r

  fields_new :
      (h : TaskHash N)
      → (tracking_task_fields F ttl now every true h).tracking_completed_chunks
        ≡ some (or_else h.tracking_completed_chunks 0 + 1)
  unfolding tracking_task_fields
  fields_new h =
      if_elim
        (λ (g : TaskHash N).
          g.tracking_completed_chunks ≡ some (or_else h.tracking_completed_chunks 0 + 1))
        _ _ _ (λ e. refl) (λ e. refl)

  fields_counted :
      (is_new : Bool) (h : TaskHash N)
      → (or_else (tracking_task_fields F ttl now every is_new h).tracking_completed_chunks 0
          ≡ or_else h.tracking_completed_chunks 0 + (if is_new then 1 else 0))
        × ((tracking_task_fields F ttl now every is_new h).total_chunks ≡ h.total_chunks)
  unfolding tracking_task_fields
  fields_counted true h = (
    ap (λ (t : Option ℕ). or_else t 0) (fields_new h),
    if_elim (λ (g : TaskHash N). g.total_chunks ≡ h.total_chunks) _ _ _ (λ e. refl) (λ e. refl),
  )
  fields_counted false h = (omega arith, refl)

  -- If the flags and the counter of a task agree with the set of chunks whose tracking results are
  -- recorded, a delivery of a chunk's result keeps this with that chunk added, says whether the
  -- chunk is new, and answers with the size of the new set and the total, which it does not
  -- change.
  pub mark-Tracked :
      (got : List ℕ) (i : ℕ) (payload : Text) (r : Redis N)
      → Tracked task got r
      → let ((cut_done, is_new, completed, total), r') = mark i payload r in
        Tracked task (add i got) r'
        × (is_new ≡ not (mem i got))
        × (completed ≡ length (add i got))
        × (total ≡ total_of task r)
        × (total_of task r' ≡ total_of task r)
  unfolding mark_chunk_tracking_done mark_script
  mark-Tracked got i payload r h =
      let k = chunk_key task (chunk_id task i) in
      let fields = fields_counted (not (mem i got)) (task_at r (task_key task)) in
      let count : or_else
            (tracking_task_fields F ttl now every (not (mem i got))
              (task_at r (task_key task))).tracking_completed_chunks
            0
          ≡ length (add i got) =
        ground (arith, fields.0, h.counted, length-add i got) in
      let same = ap (λ (t : Option ℕ). or_else t 0) fields.1 in
      rw (h.recorded i) (
        record {
          recorded = λ j. rw (get_or-put, chunk_key_eq, mem-add) (ground (arith, h.recorded j));
          counted = rw get_or-put_self count;
          distinct = IsDistinct-add i got h.distinct;
        },
        refl,
        count,
        same,
        rw get_or-put_self same,
      )

  -- Whether an answer completes the task: the handler goes on to aggregate.
  abbrev pub completes : Bool × Bool × ℕ × ℕ → Bool
  completes (cut_done, is_new, completed, total) = is_new && (ltb 0 total && leb total completed)

  -- How many of the answers to the deliveries complete the task.
  pub completions : List (ℕ × Text) → Redis N → ℕ
  completions [] r = 0
  completions ((i, payload) ∷ ds) r =
      let (answer, r') = mark i payload r in (if completes answer then 1 else 0) + completions ds r'

  -- With the total known before the deliveries and the chunks of all of them below it, at most one
  -- answer of mark_chunk_tracking_done says that it is new and that all chunks are done, however
  -- the deliveries are ordered and repeated, and none does once all chunks are counted.
  pub completions-le_one :
      (got : List ℕ) (ds : List (ℕ × Text)) (total : ℕ) (r : Redis N)
      → Tracked task got r
      → total_of task r ≡ total
      → All (λ i. i < total) got
      → All (λ (d : ℕ × Text). d.0 < total) ds
      → completions ds r + (if leb total (length got) then 1 else 0) ≤ 1
  unfolding completions
  completions-le_one got [] total r h known low below = ground arith
  completions-le_one got ((i, payload) ∷ ds) total r h known low below =
      let step = mark-Tracked got i payload r h in
      let rest =
        completions-le_one (add i got) ds total (mark i payload r).1 step.0 (step.4 ∙ known)
          (add-All i got below.0 low) below.1 in
      elim (Bool-cases (mem i got)) [
        | inl old ↦
            let stale : completes (mark i payload r).0 ≡ false = rw (step.1, old) in
            rw stale (omega (arith, rw old at rest))
        | inr new ↦
            let short = length-lt_missing total got i h.distinct low below.0 new in
            ground (arith, step.1, step.2, step.3, known, rest, length-add i got, short)
      ]
