-- ===== src/Tracker/Intervals/Frames.antt =====
-- The tracks that `process_interval` of participant_3_tracking/yolo_world_tracker.py answers.
use cv_video_analysis.Common.{
  ℕ, ◌+◌, ◌≤◌, ◌≡◌, refl, Bool, true, not, ◌||◌, Option, none, some, List, [], ◌∷◌, if_elim, All,
  All-append, All-mono, length, arith,
}
use cv_video_analysis.Common.Texts.{Text}
use cv_video_analysis.Domain.Floats.{Floats, float_min, float_max}
use cv_video_analysis.Tracker.{
  DetectedBox, TrackedRow, short_row, tracked, TrackedObject, TrackerState, Vision,
}
use cv_video_analysis.Tracker.Classes.{TextMethods, name_of}
use cv_video_analysis.Tracker.Ids.{map_track_id}
use cv_video_analysis.Tracker.Intervals.{
  Outcome, returned, raised, and_then, TrackerSettings, Tensor, detect_frame, clip_row, named_row,
  process_row, process_rows, process_update, process_frame, process_frames, process_interval,
  track_of, numbered,
}
use cv_video_analysis.Domain.Floats.{
  float_max-right, le-float_min, float_min-left, of_nat-nonneg, IsLe, le-float_max_left,
}

abbrev pub Gives : {A S : Type 0} → (A → Type 0) → Outcome A × S → Type 0
Gives P (returned a, s) = P a
Gives P (raised e, s) = Unit

pub and_then-Gives :
    {A B S : Type 0} (P : A → Type 0) (Q : B → Type 0) (r : Outcome A × S)
    (f : A → S → Outcome B × S)
    → Gives P r
    → ((a : A) (s : S) → P a → Gives Q (f a s))
    → Gives Q (and_then r f)
and_then-Gives P Q (returned a, s) f h k = k a s h
and_then-Gives P Q (raised e, s) f h k = tt

pub Gives-mono :
    {A S : Type 0} (P Q : A → Type 0) (r : Outcome A × S)
    → ((a : A) → P a → Q a)
    → Gives P r
    → Gives Q r
Gives-mono P Q (returned a, s) f h = f a h
Gives-mono P Q (raised e, s) f h = tt

module _ {N : Type 0} (F : Floats N) where
  -- The fields as `TrackedObject` and `BoundingBox` require them.
  pub record IsAccepted (t : TrackedObject N) : Type 0 where
    pub confidence_least : IsLe F (F.of_nat 0) t.confidence
    pub confidence_most : IsLe F t.confidence (F.of_nat 1)
    pub left : IsLe F (F.of_nat 0) t.bbox.x
    pub top : IsLe F (F.of_nat 0) t.bbox.y
    pub wide : F.lt (F.of_nat 0) t.bbox.width ≡ true
    pub high : F.lt (F.of_nat 0) t.bbox.height ≡ true

module _ {N Frame B : Type 0} (F : Floats N) (sub : N → N → N) (T : TextMethods)
    (V : Vision N Frame B) (c : TrackerSettings N) where
  pub record IsTrack (scene_id : Text) (first last : ℕ) (t : TrackedObject N) : Type 0 where
    pub scene : t.scene_id ≡ scene_id
    pub from : first ≤ t.frame
    pub until : t.frame ≤ last
    pub named : (i : ℕ) × (name_of T c.output_names i ≡ some t.class_name)
    pub accepted : IsAccepted F t

  widened :
      (scene_id : Text) (a b d e : ℕ) (ts : List (TrackedObject N))
      → d ≤ a
      → b ≤ e
      → All (IsTrack scene_id a b) ts
      → All (IsTrack scene_id d e) ts
  widened scene_id a b d e ts h k =
      All-mono
        (λ t q. record {
          scene = q.scene;
          from = omega (arith, q.from, h);
          until = omega (arith, q.until, k);
          named = q.named;
          accepted = q.accepted;
        })
        ts

  module _ (scene_id : Text) (frame : Frame) (index : ℕ) where
    abbrev Here : List (TrackedObject N) → Type 0
    Here ts = All (IsTrack scene_id index index) ts

    numbered-Here :
        (box : DetectedBox N) (name : Text) (x1 y1 width height : N) (r : ℕ × TrackerState B)
        → (i : ℕ) × (name_of T c.output_names i ≡ some name)
        → IsLe F (F.of_nat 0) x1
        → IsLe F (F.of_nat 0) y1
        → F.lt (F.of_nat 0) width ≡ true
        → F.lt (F.of_nat 0) height ≡ true
        → Gives Here (
            numbered F sub T V c scene_id frame index
              (track_of F sub T V c scene_id frame index box name x1 y1 width height)
              r)
    numbered-Here box name x1 y1 width height (track_id, s) known hx hy hw hh = (
      record {
        scene = refl;
        from = omega arith;
        until = omega arith;
        named = known;
        accepted = record {
          confidence_least =
              le-float_min F (F.of_nat 1) _ (F.of_nat 0) (of_nat-nonneg F 1)
                (le-float_max_left F (F.of_nat 0) box.confidence);
          confidence_most = float_min-left F (F.of_nat 1) _;
          left = hx;
          top = hy;
          wide = hw;
          high = hh;
        };
      },
      tt,
    )

    clip_row-Here :
        (box : DetectedBox N) (raw : ℕ) (name : Text) (s : TrackerState B)
        → (i : ℕ) × (name_of T c.output_names i ≡ some name)
        → Gives Here (clip_row F sub T V c scene_id frame index box raw name s)
    unfolding clip_row
    clip_row-Here box raw name s known =
        let frame_width = F.of_nat (V.frame_width frame) in
        let frame_height = F.of_nat (V.frame_height frame) in
        let x1 = float_min F (float_max F box.x1 (F.of_nat 0)) frame_width in
        let y1 = float_min F (float_max F box.y1 (F.of_nat 0)) frame_height in
        let x2 = float_min F (float_max F box.x2 x1) frame_width in
        let y2 = float_min F (float_max F box.y2 y1) frame_height in
        if_elim (Gives {S = TrackerState B} Here)
          (not (F.lt (F.of_nat 0) (sub x2 x1)) || not (F.lt (F.of_nat 0) (sub y2 y1))) _ _ (λ e. tt)
          (λ e.
            numbered-Here box name x1 y1 (sub x2 x1) (sub y2 y1) (map_track_id raw s) known
              (le-float_min F _ frame_width (F.of_nat 0) (float_max-right F box.x1 (F.of_nat 0))
                (of_nat-nonneg F (V.frame_width frame)))
              (le-float_min F _ frame_height (F.of_nat 0) (float_max-right F box.y1 (F.of_nat 0))
                (of_nat-nonneg F (V.frame_height frame)))
              (ground arith) (ground arith))

    named_row-Here :
        (box : DetectedBox N) (raw : ℕ) (o : Option Text) (s : TrackerState B)
        → name_of T c.output_names box.class_id ≡ o
        → Gives Here (named_row F sub T V c scene_id frame index box raw o s)
    unfolding named_row
    named_row-Here box raw none s e = tt
    named_row-Here box raw (some name) s e = clip_row-Here box raw name s (box.class_id, e)

    process_row-Here :
        (row : TrackedRow N) (s : TrackerState B)
        → Gives Here (process_row F sub T V c scene_id frame index row s)
    unfolding process_row
    process_row-Here short_row s = tt
    process_row-Here (tracked box raw) s =
        if_elim (Gives {S = TrackerState B} Here) (F.lt box.confidence c.confidence) _ _ (λ e. tt)
          (λ e. named_row-Here box raw (name_of T c.output_names box.class_id) s refl)

    process_rows-Here :
        (rows : List (TrackedRow N)) (s : TrackerState B)
        → Gives Here (process_rows F sub T V c scene_id frame index rows s)
    unfolding process_rows
    process_rows-Here [] s = tt
    process_rows-Here (row ∷ rows) s =
        and_then-Gives Here Here (process_row F sub T V c scene_id frame index row s) _
          (process_row-Here row s)
          λ track s' h.
            and_then-Gives Here Here (process_rows F sub T V c scene_id frame index rows s') _
              (process_rows-Here rows s') λ tracks s'' h'. All-append _ track tracks h h'

    process_frame-Here :
        (s : TrackerState B) → Gives Here (process_frame F sub T V c scene_id frame index s)
    unfolding process_frame process_update
    process_frame-Here s =
        let u = V.update s.byte_tracker (detect_frame F sub T V c frame) frame in
        process_rows-Here u.0 (record s { byte_tracker = u.1 })

  -- The frames are numbered from `index` on and end by `last`.
  process_frames-IsTrack :
      (scene_id : Text) (index last : ℕ) (frames : List Frame) (s : TrackerState B)
      → index + length frames ≤ last + 1
      → Gives
          (All (IsTrack scene_id index last))
          (process_frames F sub T V c scene_id index frames s)
  unfolding process_frames
  process_frames-IsTrack scene_id index last [] s h = tt
  process_frames-IsTrack scene_id index last (frame ∷ frames) s h =
      let P = All (IsTrack scene_id index last) in
      and_then-Gives (All (IsTrack scene_id index index)) P
        (process_frame F sub T V c scene_id frame index s) _
        (process_frame-Here scene_id frame index s)
        λ first s' hf.
          and_then-Gives (All (IsTrack scene_id (index + 1) last)) P
            (process_frames F sub T V c scene_id (index + 1) frames s') _
            (process_frames-IsTrack scene_id (index + 1) last frames s' (omega (arith, h)))
            λ rest s'' hr.
              All-append _ first rest
                (widened scene_id index index index last first (omega arith) (omega (arith, h)) hf)
                (widened scene_id (index + 1) last index last rest (omega arith) (omega arith) hr)

  pub process_interval-IsTrack :
      (tensor : Tensor Frame) (start last : ℕ) (scene_id : Text) (reset_tracker : Bool)
      (s : TrackerState B)
      → start + length tensor.frames ≤ last + 1
      → Gives
          (All (IsTrack scene_id start last))
          (process_interval F sub T V c tensor start scene_id reset_tracker s)
  unfolding process_interval
  process_interval-IsTrack tensor start last scene_id reset_tracker s h =
      if_elim (Gives {S = TrackerState B} (All (IsTrack scene_id start last))) (not tensor.is_rgb) _
        _ (λ e. tt) (λ e. process_frames-IsTrack scene_id start last tensor.frames _ h)
