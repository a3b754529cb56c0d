-- ===== src/Cuts/Owning.antt =====
-- What a chunk owns in participant_4_cut_detection/worker.py lies in its valid range, but for a
-- gradual transition that ends right before it.
use cv_video_analysis.Cuts.{
  Detection, cut_at, gradual_in, OwnedTransition, CutSceneState, built, is_gradual, gradual_of,
  spans_boundary, take_spanning, starts_before, ends_before, map_range, map_detection,
  map_detections, clamped,
}
use cv_video_analysis.Cuts.Deduplication.{
  Collected, waits, own_or_wait, combine, settle_spanned, settle_pending, wait_with,
  collect_gradual, collect_all, covered_by, collect_cut, collect_cuts, collect,
  deduplicate_owned_transitions, nothing_pending,
}
use cv_video_analysis.Cuts.Taking.{All-add_owned, All-gradual_of, Taken, take_spanning-Taken}
use cv_video_analysis.Common.{
  ◌&&◌, ℕ, ◌+◌, ◌-◌, ◌≤◌, ◌<◌, ◌≡◌, refl, true, false, Option, none, some, List, [], ◌∷◌, All,
  arith, if_elim, Bool-cases, ltb, leb, inl, inr,
}
use cv_video_analysis.Common.Sorting.{sort_by, All-sort_by}
use cv_video_analysis.Domain.Enums.{TransitionType, hard_cut, gradual_transition}
use cv_video_analysis.Domain.Floats.{
  Floats, IsUnit, zero-IsUnit, float_max-IsUnit, le-float_min, of_nat-nonneg, le-float_max_left,
  float_min-left,
}
use cv_video_analysis.Domain.Schemas.{FrameBatchMetadata}

-- A model's ranges lie in the tensor.
abbrev pub IsLocal : {N : Type 0} → FrameBatchMetadata → Detection N → Type 0
IsLocal batch (cut_at frame confidence) = frame < batch.frame_count
IsLocal batch (gradual_in start end confidence) = (start ≤ end) × (end < batch.frame_count)

-- The window of a batch whose context stands before its valid range only.
abbrev pub IsWindow : FrameBatchMetadata → Type 0
IsWindow batch =
    (batch.context_start_frame ≤ batch.valid_start_frame)
    × (batch.valid_start_frame ≤ batch.valid_end_frame)
    × (batch.context_end_frame ≡ batch.valid_end_frame)
    × (batch.context_start_frame + batch.frame_count ≡ batch.context_end_frame + 1)

abbrev pub PendingBelow : ℕ → Option ℕ → Type 0
PendingBelow frame none = Unit
PendingBelow frame (some start) = start < frame

-- What the chunk owns: it ends in the valid range, or it is gradual and ends right before.
abbrev pub Owns : {N : Type 0} → Floats N → FrameBatchMetadata → OwnedTransition N → Type 0
Owns F batch a =
    (a.start_frame ≤ a.end_frame)
    × (a.end_frame ≤ batch.valid_end_frame)
    × (batch.valid_start_frame ≤ a.end_frame + 1)
    × (is_gradual a ≡ false → batch.valid_start_frame ≤ a.end_frame)
    × IsUnit F a.confidence

module _ {N : Type 0} (F : Floats N) (batch : FrameBatchMetadata) (window : IsWindow batch) where
  abbrev Mapped : OwnedTransition N → Type 0
  Mapped a =
      (a.start_frame ≤ a.end_frame) × (a.end_frame ≤ batch.valid_end_frame) × IsUnit F a.confidence

  clamped-IsUnit : (x : N) → IsUnit F (clamped F x)
  unfolding clamped
  clamped-IsUnit x = (
    le-float_min F (F.of_nat 1) _ (F.of_nat 0) (of_nat-nonneg F 1)
        (le-float_max_left F (F.of_nat 0) x),
    float_min-left F (F.of_nat 1) _,
  )

  abbrev Ready : Collected N → Type 0
  Ready c =
      All (Owns F batch) c.owned
      × PendingBelow (batch.valid_end_frame + 1) c.previous_start
      × IsUnit F c.previous_confidence

  abbrev mapped_range : TransitionType → ℕ → ℕ → N → OwnedTransition N
  mapped_range kind start end confidence = record {
    kind = kind;
    start_frame = batch.context_start_frame + start;
    end_frame = batch.context_start_frame + end;
    confidence = clamped F confidence;
  }

  map_range_lem :
      (kind : TransitionType) (start end : ℕ) (confidence : N)
      → start ≤ end
      → end < batch.frame_count
      → map_range F batch kind start end confidence ≡ built (mapped_range kind start end confidence)
  unfolding map_range
  map_range_lem kind start end confidence le lt = ground arith

  map_detection-Mapped :
      (d : Detection N)
      → IsLocal batch d
      → (a : OwnedTransition N) × (map_detection F batch d ≡ built a) × Mapped a
  unfolding map_detection
  map_detection-Mapped (cut_at frame confidence) h = (
    mapped_range hard_cut frame frame confidence,
    map_range_lem hard_cut frame frame confidence (omega arith) h,
    (omega arith, omega arith, clamped-IsUnit confidence),
  )
  map_detection-Mapped (gradual_in start end confidence) h = (
    mapped_range gradual_transition start end confidence,
    map_range_lem gradual_transition start end confidence h.0 h.1,
    (omega arith, omega arith, clamped-IsUnit confidence),
  )

  map_detections-Mapped :
      (ds : List (Detection N))
      → All (IsLocal batch) ds
      → (l : List (OwnedTransition N)) × (map_detections F batch ds ≡ built l) × All Mapped l
  unfolding map_detections
  map_detections-Mapped [] h = ([], refl, tt)
  map_detections-Mapped (d ∷ ds) (hd, h) =
      let (a, is_a, ma) = map_detection-Mapped d hd in
      let (l, is_l, ml) = map_detections-Mapped ds h in (a ∷ l, rw (is_a, is_l) refl, (ma, ml))

  abbrev GradualMapped : OwnedTransition N → Type 0
  GradualMapped a = Mapped a × (is_gradual a ≡ true)

  own_or_wait-Ready :
      (a : OwnedTransition N)
      → Mapped a
      → is_gradual a ≡ true
      → batch.valid_start_frame ≤ a.end_frame + 1
      → Ready (own_or_wait F batch a)
  unfolding own_or_wait
  own_or_wait-Ready a m gradual above =
      if_elim Ready (waits F batch a) _ _ (λ e. (tt, omega arith, m.2))
        (λ e.
          (((m.0, m.1, above, λ cut. absurd (ground (arith, cut)), m.2), tt), tt, zero-IsUnit F))

  settle_spanned-Ready :
      (start : ℕ) (confidence : N) (gradual : List (OwnedTransition N))
      (taken : Option (OwnedTransition N × List (OwnedTransition N)))
      → start < batch.valid_start_frame
      → IsUnit F confidence
      → All GradualMapped gradual
      → Taken GradualMapped batch.valid_start_frame taken
      → (c : Collected N) × (rest : List (OwnedTransition N)) × (settle_spanned F batch start
            confidence gradual taken
          ≡ built (c, rest))
        × Ready c
        × All GradualMapped rest
  unfolding settle_spanned is_gradual
  settle_spanned-Ready start confidence gradual none below unit h t = (
    nothing_pending F (
        record {
          kind = gradual_transition;
          start_frame = start;
          end_frame = batch.valid_start_frame - 1;
          confidence = confidence;
        }
        ∷ []),
    gradual,
    ground arith,
    (
      ((omega arith, omega arith, omega arith, λ cut. absurd (ground (arith, cut)), unit), tt),
      tt,
      zero-IsUnit F,
    ),
    h,
  )
  settle_spanned-Ready start confidence gradual (some (a, rest)) below unit h (m, spans, hr) = (
    own_or_wait F batch (combine F start confidence a),
    rest,
    refl,
    own_or_wait-Ready (combine F start confidence a)
        (omega arith, omega arith, float_max-IsUnit F confidence a.confidence unit m.0.2) refl
        (unfold spans_boundary in ground arith),
    hr,
  )

  settle_pending-Ready :
      (pending : Option ℕ) (confidence : N) (gradual : List (OwnedTransition N))
      → PendingBelow batch.valid_start_frame pending
      → IsUnit F confidence
      → All GradualMapped gradual
      → (c : Collected N) × (rest : List (OwnedTransition N)) × (settle_pending F batch pending
            confidence gradual
          ≡ built (c, rest))
        × Ready c
        × All GradualMapped rest
  unfolding settle_pending
  settle_pending-Ready none confidence gradual below unit h = (_, _, refl, (tt, tt, unit), h)
  settle_pending-Ready (some start) confidence gradual below unit h =
      settle_spanned-Ready start confidence gradual (take_spanning batch.valid_start_frame gradual)
        below unit h (take_spanning-Taken GradualMapped batch.valid_start_frame gradual h)

  -- The loop over the gradual transitions.
  collect_gradual-Ready :
      (a : OwnedTransition N) (c : Collected N)
      → GradualMapped a
      → Ready c
      → Ready (collect_gradual F batch a c)
  unfolding collect_gradual
  collect_gradual-Ready a c (m, gradual) (owned, pending, unit) =
      elim (Bool-cases (ltb a.end_frame batch.valid_start_frame)) [
        | inl before ↦ rw before (owned, pending, unit)
        | inr after ↦ rw after (
            if_elim Ready (waits F batch a) _ _
              (λ e. (
                wait_owned c.previous_start,
                wait_below c.previous_start,
                wait_unit c.previous_start,
              ))
              (λ e.
                if_elim Ready (leb a.end_frame batch.valid_end_frame) _ _
                  (λ le. (
                    All-add_owned F (Owns F batch) c.owned a owned
                        (m.0, m.1, ground arith, λ cut. absurd (ground (arith, cut)), m.2),
                    pending,
                    unit,
                  ))
                  (λ gt. (owned, pending, unit))))
      ]
    where
      wait_owned : (o : Option ℕ) → All (Owns F batch) (wait_with F a c o).owned
      wait_owned none = owned
      wait_owned (some start) = owned

      wait_below :
          (o : Option ℕ)
          → PendingBelow (batch.valid_end_frame + 1) (wait_with F a c o).previous_start
      wait_below none = omega arith
      wait_below (some start) = omega arith

      wait_unit : (o : Option ℕ) → IsUnit F (wait_with F a c o).previous_confidence
      wait_unit none = m.2
      wait_unit (some start) = float_max-IsUnit F c.previous_confidence a.confidence unit m.2

  collect_all-Ready :
      (l : List (OwnedTransition N)) (c : Collected N)
      → All GradualMapped l
      → Ready c
      → Ready (collect_all F batch l c)
  unfolding collect_all
  collect_all-Ready [] c h ready = ready
  collect_all-Ready (a ∷ l) c (m, h) ready =
      collect_all-Ready l (collect_gradual F batch a c) h (collect_gradual-Ready a c m ready)

  -- The loop over the hard cuts.
  collect_cut-Owns :
      (ranges : List (OwnedTransition N)) (a : OwnedTransition N) (owned : List (OwnedTransition N))
      → Mapped a
      → All (Owns F batch) owned
      → All (Owns F batch) (collect_cut F batch ranges a owned)
  unfolding collect_cut
  collect_cut-Owns ranges a owned m h =
      if_elim (All (Owns F batch)) (is_gradual a) _ _ (λ e. h)
        (λ cut.
          elim (Bool-cases
            (leb batch.valid_start_frame a.end_frame && leb a.end_frame batch.valid_end_frame)) [
              | inl inside ↦ rw inside (
                  if_elim (All (Owns F batch)) (covered_by F ranges a.end_frame) _ _ (λ e. h)
                    (λ e.
                      All-add_owned F (Owns F batch) owned a h
                        (m.0, m.1, ground arith, λ cut. ground arith, m.2)))
              | inr outside ↦ rw outside h
            ])

  collect_cuts-Owns :
      (ranges mapped owned : List (OwnedTransition N))
      → All Mapped mapped
      → All (Owns F batch) owned
      → All (Owns F batch) (collect_cuts F batch ranges mapped owned)
  unfolding collect_cuts
  collect_cuts-Owns ranges [] owned m h = h
  collect_cuts-Owns ranges (a ∷ l) owned (ma, m) h =
      collect_cuts-Owns ranges l (collect_cut F batch ranges a owned) m
        (collect_cut-Owns ranges a owned ma h)

  collect-Ready :
      (mapped : List (OwnedTransition N)) (c : Collected N) (gradual : List (OwnedTransition N))
      → All Mapped mapped
      → All GradualMapped gradual
      → Ready c
      → Ready (collect F batch mapped (c, gradual))
  unfolding collect
  collect-Ready mapped c gradual m g ready =
      let c' = collect_all F batch gradual c in
      let (owned, pending, unit) = collect_all-Ready gradual c g ready in
      (
        All-sort_by ends_before (Owns F batch) (collect_cuts F batch c'.owned mapped c'.owned)
            (collect_cuts-Owns c'.owned mapped c'.owned m owned),
        pending,
        unit,
      )

  -- The deduplication returns, and what it returns is owned by the chunk.
  pub deduplicate-Ready :
      (detections : List (Detection N)) (state : CutSceneState N)
      → All (IsLocal batch) detections
      → PendingBelow batch.valid_start_frame state.pending_gradual_start_frame
      → IsUnit F state.pending_gradual_confidence
      → (c : Collected N) × (deduplicate_owned_transitions F batch detections state ≡ built c)
        × All (Owns F batch) c.owned
        × PendingBelow (batch.valid_end_frame + 1) c.previous_start
        × IsUnit F c.previous_confidence
  unfolding deduplicate_owned_transitions
  deduplicate-Ready detections state local below unit =
      let (mapped, is_mapped, m) = map_detections-Mapped detections local in
      let sorted = sort_by starts_before (gradual_of mapped) in
      let g =
        All-sort_by starts_before GradualMapped (gradual_of mapped)
          (All-gradual_of Mapped mapped m) in
      let (c, rest, settles, ready, hr) =
        settle_pending-Ready state.pending_gradual_start_frame state.pending_gradual_confidence
          sorted below unit g in
      let (owned, pending, kept) = collect-Ready mapped c rest m hr ready in
      (collect F batch mapped (c, rest), rw (is_mapped, settles) refl, owned, pending, kept)
