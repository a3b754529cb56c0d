-- ===== src/Ingest/Releases.antt =====
-- The waiting loops release the objects of the chunks in order, each once.
use mathlib.Core.List.{map, map-append}
use cv_video_analysis.Common.{
  All, ℕ, zero, suc, ◌+◌, ◌-◌, ◌≤◌, ◌<◌, ◌≡◌, ◌⊎◌, refl, ap, max, Bool, true, Option, none, some,
  List, [], ◌∷◌, ◌++◌, append_assoc, append-nil, arith, ltb, leb, Bool-cases, inl, inr, range_from,
}
use cv_video_analysis.Common.Texts.{Text}
use cv_video_analysis.Domain.Enums.{failed, stage_eq}
use cv_video_analysis.Ingest.{
  start_wait, wait_for_downstream_drain, wait_for_downstream_capacity, note_drain, drain_round,
  poll_loop, go_on, round, is_terminal, note_capacity, capacity_round, has_capacity, IngestSettings,
  Poll, WaitState, WaitEnd, ready, halted, stalled, no_reference, release_chunks, catch_up,
  check_stall, Rounds, capacity, drain,
}

module _ (token : ℕ → Text) where
  -- A poll in which the references of the completed chunks are stored.
  abbrev pub Knows : Poll → Type 0
  Knows p = (i : ℕ) → i < p.tracking_completed → p.object_ref i ≡ some (token i)

  -- The tokens of the chunks below the count were released, in order.
  abbrev pub ReleasedInOrder : WaitState → Type 0
  ReleasedInOrder st = st.released ≡ map token (range_from 0 st.released_count)

  release_chunks_lem :
      (object_ref : ℕ → Option Text) (index left : ℕ) (log : List Text)
      → ((i : ℕ) → i < index + left → object_ref i ≡ some (token i))
      → release_chunks object_ref index left log
        ≡ (true, index + left, log ++ map token (range_from index left))
  unfolding release_chunks
  release_chunks_lem object_ref index zero log known =
      let out : ℕ → Bool × ℕ × List Text = λ n. (true, n, log) in
      let same : index ≡ index + 0 = omega arith in rw append-nil (ap out same)
  release_chunks_lem object_ref index (suc left) log known =
      let out : ℕ → Bool × ℕ × List Text =
        λ n. (true, n, log ++ token index ∷ map token (range_from (suc index) left)) in
      let same : suc index + left ≡ index + suc left = omega arith in
      let rest =
        release_chunks_lem object_ref (suc index) left (log ++ token index ∷ [])
          (λ i lt. known i (omega arith)) in
      rw (release_chunks, known index (omega arith), rest, append_assoc) (ap out same)

  range_from_append : (k m n : ℕ) → range_from k m ++ range_from (k + m) n ≡ range_from k (m + n)
  range_from_append k zero n =
      let same : k + 0 ≡ k = omega arith in let sum : 0 + n ≡ n = omega arith in rw (same, sum) refl
  range_from_append k (suc m) n =
      let same : k + suc m ≡ suc k + m = omega arith in
      let sum : suc m + n ≡ suc (m + n) = omega arith in
      rw (same, sum) (ap (λ l. k ∷ l) (range_from_append (suc k) m n))

  catch_up_lem :
      (p : Poll) (st : WaitState)
      → Knows p
      → ReleasedInOrder st
      → (st' : WaitState) × (catch_up p st ≡ (true, st'))
        × ReleasedInOrder st'
        × (st'.released_count ≡ max st.released_count p.tracking_completed)
  unfolding catch_up
  catch_up_lem p st known order = elim (Bool-cases (ltb st.released_count p.tracking_completed)) [
    | inl behind ↦
        let n = p.tracking_completed - st.released_count in
        let done = release_chunks_lem p.object_ref st.released_count n st.released (λ i lt.
          known i (
            omega
              (arith, (let h : st.released_count < p.tracking_completed = ground arith in h)))) in
        let more : st.released_count + n ≡ p.tracking_completed =
          let h : st.released_count < p.tracking_completed = ground arith in omega arith in
        let sum : 0 + st.released_count ≡ st.released_count = omega arith in
        let joined : range_from 0 st.released_count ++ range_from st.released_count n
            ≡ range_from 0 (st.released_count + n) =
          rw sum at (range_from_append 0 st.released_count n) in
        let caught : WaitState = record st {
          released_count = st.released_count + n;
          stalled_since = p.released_at;
          released = st.released ++ map token (range_from st.released_count n);
        } in
        (
          caught,
          rw (behind, done) refl,
          rw order (rw map-append at (ap (map token) joined)),
          ground (arith, more),
        )
    | inr level ↦ (st, rw level refl, order, ground arith)
  ]

-- What the end of a loop says: with capacity, fewer chunks than the limit are published and not yet
-- released; a drain that is ready has released them all.
abbrev pub EndMeans : IngestSettings → Rounds → WaitEnd → ℕ → Type 0
EndMeans s (capacity published_count) ready n = published_count < s.max_inflight_chunks_per_task + n
EndMeans s (drain total_chunks) ready n = total_chunks ≤ n
EndMeans s kind no_reference n = ⊥
EndMeans s kind halted n = Unit
EndMeans s kind stalled n = Unit

module _ (s : IngestSettings) (token : ℕ → Text) where
  -- A round leaves the releases as they are.
  abbrev SameReleases : WaitState → WaitState → Type 0
  SameReleases st st' = (st'.released ≡ st.released) × (st'.released_count ≡ st.released_count)

  check_stall-SameReleases :
      (p : Poll) (st : WaitState)
      → SameReleases st (check_stall s p st).1
        × ((check_stall s p st).0 ≡ none ⊎ (check_stall s p st).0 ≡ some stalled)
  unfolding check_stall
  check_stall-SameReleases p st =
      elim (Bool-cases (leb s.downstream_stall_timeout (p.checked_at - st.stalled_since))) [
        | inl late ↦ rw late ((refl, refl), inr refl)
        | inr early ↦ rw early ((refl, refl), inl refl)
      ]

  stalled_means :
      (kind : Rounds) (end : Option WaitEnd) (n : ℕ)
      → (end ≡ none ⊎ end ≡ some stalled)
      → (e : WaitEnd) → end ≡ some e
      → EndMeans s kind e n
  stalled_means kind end n h ready e = absurd (ground (arith, h, e))
  stalled_means kind end n h halted e = tt
  stalled_means kind end n h stalled e = tt
  stalled_means kind end n h no_reference e = ground (arith, h, e)

  capacity_means :
      (published_count n : ℕ) (p : Poll)
      → p.tracking_completed ≤ n
      → has_capacity s published_count p ≡ true
      → published_count < s.max_inflight_chunks_per_task + n
  unfolding has_capacity
  capacity_means published_count n p done h = ground arith

  capacity_round_lem :
      (published_count : ℕ) (p : Poll) (st : WaitState)
      → p.tracking_completed ≤ st.released_count
      → let (end, st') = capacity_round s published_count p (true, st) in
        SameReleases st st'
        × ((e : WaitEnd)
            → end ≡ some e
            → EndMeans s (capacity published_count) e st'.released_count)
  unfolding capacity_round note_capacity
  capacity_round_lem published_count p st done = elim (Bool-cases (is_terminal p.stage)) [
    | inl over ↦ rw over ((refl, refl), λ e h. (let same : halted ≡ e = cc in rw (← same) tt))
    | inr live ↦ elim (Bool-cases (has_capacity s published_count p)) [
      | inl room ↦
          rw (live, room)
            (
              (refl, refl),
              λ e h.
                  (let same : ready ≡ e = cc in
                    rw (← same) (capacity_means published_count st.released_count p done room)),
            )
      | inr full ↦
          let check = check_stall-SameReleases p (note_capacity p st) in
          rw (live, full) (check.0, λ e h. stalled_means (capacity published_count) _ _ check.1 e h)
    ]
  ]

  drain_round_lem :
      (total_chunks : ℕ) (p : Poll) (st : WaitState)
      → let (end, st') = drain_round s total_chunks p (true, st) in
        SameReleases st st'
        × ((e : WaitEnd) → end ≡ some e → EndMeans s (drain total_chunks) e st'.released_count)
  unfolding drain_round note_drain
  drain_round_lem total_chunks p st = elim (Bool-cases (leb total_chunks st.released_count)) [
    | inl all ↦
        let le : total_chunks ≤ st.released_count = ground arith in
        rw all ((refl, refl), λ e h. (let same : ready ≡ e = cc in rw (← same) le))
    | inr some_left ↦ elim (Bool-cases (stage_eq p.stage failed)) [
      | inl over ↦
          rw (some_left, over) ((refl, refl), λ e h. (let same : halted ≡ e = cc in rw (← same) tt))
      | inr live ↦
          let check = check_stall-SameReleases p (note_drain p st) in
          rw (some_left, live) (check.0, λ e h. stalled_means (drain total_chunks) _ _ check.1 e h)
    ]
  ]

  round_lem :
      (kind : Rounds) (p : Poll) (st : WaitState)
      → p.tracking_completed ≤ st.released_count
      → let (end, st') = round s kind p (true, st) in
        SameReleases st st' × ((e : WaitEnd) → end ≡ some e → EndMeans s kind e st'.released_count)
  unfolding round
  round_lem (capacity published_count) p st done = capacity_round_lem published_count p st done
  round_lem (drain total_chunks) p st done = drain_round_lem total_chunks p st

  -- One round of a loop.
  poll_lem :
      (kind : Rounds) (p : Poll) (st : WaitState)
      → Knows token p
      → ReleasedInOrder token st
      → let (end, st') = round s kind p (catch_up p st) in
        ReleasedInOrder token st'
        × (st.released_count ≤ st'.released_count)
        × ((e : WaitEnd) → end ≡ some e → EndMeans s kind e st'.released_count)
  poll_lem kind p st known order =
      let (st1, caught, order1, count1) = catch_up_lem token p st known order in
      let (same, means) = round_lem kind p st1 (omega (arith, count1)) in
      rw caught (rw (same.0, same.1) order1, omega (arith, same.1, count1), means)

  go_on_lem :
      (kind : Rounds) (n : ℕ) (out rest : Option WaitEnd × WaitState)
      → ReleasedInOrder token out.1
      → n ≤ out.1.released_count
      → ((e : WaitEnd) → out.0 ≡ some e → EndMeans s kind e out.1.released_count)
      → (ReleasedInOrder token rest.1
          × (out.1.released_count ≤ rest.1.released_count)
          × ((e : WaitEnd) → rest.0 ≡ some e → EndMeans s kind e rest.1.released_count))
      → let (end, st') = go_on out rest in
        ReleasedInOrder token st'
        × (n ≤ st'.released_count)
        × ((e : WaitEnd) → end ≡ some e → EndMeans s kind e st'.released_count)
  unfolding go_on
  go_on_lem kind n (some end, st) rest order le means later = (order, le, means)
  go_on_lem kind n (none, st) rest order le means later =
      (later.0, omega (arith, later.1, le), later.2)

  -- The loops, whatever they poll.
  pub poll_loop_lem :
      (kind : Rounds) (ps : List Poll) (st : WaitState)
      → All (Knows token) ps
      → ReleasedInOrder token st
      → let (end, st') = poll_loop s kind ps st in
        ReleasedInOrder token st'
        × (st.released_count ≤ st'.released_count)
        × ((e : WaitEnd) → end ≡ some e → EndMeans s kind e st'.released_count)
  unfolding poll_loop
  poll_loop_lem kind [] st known order = (order, omega arith, λ e h. absurd (ground (arith, h)))
  poll_loop_lem kind (p ∷ ps) st known order =
      let one = poll_lem kind p st known.0 order in
      let out = round s kind p (catch_up p st) in
      go_on_lem kind st.released_count out (poll_loop s kind ps out.1) one.0 one.1 one.2
        (poll_loop_lem kind ps out.1 known.1 one.0)

  -- If every poll finds the references of the completed chunks, and the objects of the chunks
  -- below the count were released in order, both waiting loops of the ingest worker keep this for
  -- a count that never falls; the capacity loop reports capacity only with fewer published chunks
  -- that are not released than the limit of a task, the drain reports its end only with all chunks
  -- released, and neither fails for a missing reference.
  pub waits_lem :
      (published_count total_chunks released_count now : ℕ) (ps : List Poll)
      → All (Knows token) ps
      → let log = map token (range_from 0 released_count) in
        let (end, st') = wait_for_downstream_capacity s published_count released_count now log ps in
        let (end_drain, st_drain) =
          wait_for_downstream_drain s total_chunks released_count now log ps in
        (ReleasedInOrder token st'
          × (released_count ≤ st'.released_count)
          × ((e : WaitEnd)
              → end ≡ some e
              → EndMeans s (capacity published_count) e st'.released_count))
        × (ReleasedInOrder token st_drain
            × (released_count ≤ st_drain.released_count)
            × ((e : WaitEnd)
                → end_drain ≡ some e
                → EndMeans s (drain total_chunks) e st_drain.released_count))
  unfolding wait_for_downstream_capacity wait_for_downstream_drain
  waits_lem published_count total_chunks released_count now ps known =
      let st = start_wait now released_count (map token (range_from 0 released_count)) in
      (
        poll_loop_lem (capacity published_count) ps st known refl,
        elim (Bool-cases (ltb released_count total_chunks)) [
          | inl some_left ↦ rw some_left (poll_loop_lem (drain total_chunks) ps st known refl)
          | inr none_left ↦
              let le : total_chunks ≤ released_count = ground arith in
              rw none_left (refl, omega arith, λ e h. (let same : ready ≡ e = cc in rw (← same) le))
        ],
      )
