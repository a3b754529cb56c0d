-- ===== src/Ingest/Stalls.antt =====
-- A capacity loop that sees no progress ends.
use cv_video_analysis.Common.{
  ℕ, ◌-◌, ◌≤◌, ◌≡◌, refl, ap, true, false, some, List, [], ◌∷◌, ◌++◌, arith, ltb, leb, Bool-cases,
  inl, inr, All,
}
use cv_video_analysis.Common.Texts.{Text}
use cv_video_analysis.Domain.Stages.{is_terminal}
use cv_video_analysis.Ingest.{
  IngestSettings, Poll, WaitState, stalled, catch_up, has_capacity, note_capacity, exceeds, below,
  check_stall, capacity_round, capacity, round, go_on, poll_loop,
}

-- A poll that finds neither capacity nor an end, with the same counts as before.
pub record Quiet (s : IngestSettings) (published_count tracked in_flight : ℕ) (p : Poll)
    : Type 0 where
  pub same_tracked : p.tracking_completed ≡ tracked
  pub same_in_flight : p.global_in_flight ≡ in_flight
  pub live : is_terminal p.stage ≡ false
  pub full : has_capacity s published_count p ≡ false

module _ (s : IngestSettings) (published_count tracked in_flight since released_count : ℕ)
    (log : List Text) (behind : tracked ≤ released_count) where
  -- A loop that has polled before.
  abbrev pub waiting : WaitState
  waiting = record {
    released_count = released_count;
    stalled_since = since;
    last_tracking_completed = some tracked;
    last_global_in_flight = some in_flight;
    released = log;
  }

  note-Quiet :
      (p : Poll) → Quiet s published_count tracked in_flight p → note_capacity p waiting ≡ waiting
  unfolding note_capacity exceeds below
  note-Quiet p q =
      let a : ltb tracked tracked ≡ false = ground arith in
      let b : ltb in_flight in_flight ≡ false = ground arith in
      rw (q.same_tracked, q.same_in_flight, a, b) refl

  catch_up-Quiet :
      (p : Poll)
      → Quiet s published_count tracked in_flight p
      → catch_up p waiting ≡ (true, waiting)
  unfolding catch_up
  catch_up-Quiet p q =
      let level : ltb released_count p.tracking_completed ≡ false =
        (let same = q.same_tracked in ground arith) in
      rw level refl

  round-Quiet :
      (p : Poll)
      → Quiet s published_count tracked in_flight p
      → round s (capacity published_count) p (catch_up p waiting) ≡ check_stall s p waiting
  unfolding round capacity_round
  round-Quiet p q = rw (catch_up-Quiet p q, q.live, q.full) (ap (check_stall s p) (note-Quiet p q))

  -- A capacity loop that has polled before, and from then on finds the same counts, no end and no
  -- capacity, raises DownstreamStallError no later than the first poll at which the timeout has
  -- passed since the last progress.
  pub poll_loop_stalls :
      (qs : List Poll) (p : Poll)
      → All (Quiet s published_count tracked in_flight) qs
      → Quiet s published_count tracked in_flight p
      → s.downstream_stall_timeout ≤ p.checked_at - since
      → (poll_loop s (capacity published_count) (qs ++ p ∷ []) waiting).0 ≡ some stalled
  unfolding poll_loop check_stall go_on
  poll_loop_stalls [] p quiet last late =
      let test : leb s.downstream_stall_timeout (p.checked_at - since) ≡ true = ground arith in
      rw (round-Quiet p last, test) refl
  poll_loop_stalls (q ∷ qs) p quiet last late =
      elim (Bool-cases (leb s.downstream_stall_timeout (q.checked_at - since))) [
        | inl now ↦ rw (round-Quiet q quiet.0, now) refl
        | inr not_yet ↦
            rw (round-Quiet q quiet.0, not_yet) (poll_loop_stalls qs p quiet.1 last late)
      ]
