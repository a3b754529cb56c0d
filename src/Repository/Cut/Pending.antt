-- ===== src/Repository/Cut/Pending.antt =====
-- The dispatch loop ends by its own test: a round takes away one of the jobs that wait.
use cv_video_analysis.Common.{
  inl, inr, Option-cases, inr, inl, ℕ, zero, suc, ◌+◌, ◌<◌, ◌≡◌, refl, none, some, [], ◌∷◌, arith,
  if◌then◌else◌, is_some, Bool-cases,
}
use cv_video_analysis.Common.Texts.{Text, text_eq}
use cv_video_analysis.Common.Maps.{Map, get_or, put, get_or-put_self}
use cv_video_analysis.Store.{ChunkHash, Redis, chunk_at, no_chunk}
use cv_video_analysis.Store.Keys.{lua_chunk_key}
use cv_video_analysis.Repository.Cut.{
  drop_job, mark_dispatched, CutArguments, pending, send_job, dispatch_loop,
}

abbrev waits : ChunkHash → ℕ
waits c = if is_some c.tracking_job_payload then 1 else 0

pending-put :
    (m : Map ChunkHash) (k : Text) (c : ChunkHash)
    → pending (put m k c) + waits (get_or m k no_chunk) ≡ pending m + waits c
unfolding pending put get_or
pending-put [] k c = omega arith
pending-put ((j, d) ∷ m) k c = elim (Bool-cases (text_eq j k)) [
  | inl same ↦ rw same (omega arith)
  | inr apart ↦ rw apart (omega (arith, pending-put m k c))
]

module _ {N : Type 0} (a : CutArguments) where
  pub pending-send_job :
      (key payload : Text) (r : Redis N)
      → (chunk_at r key).tracking_job_payload ≡ some payload
      → pending (send_job a key payload r).chunks + 1 ≡ pending r.chunks
  unfolding send_job
  pending-send_job key payload r found =
      let c = chunk_at r key in
      let one : waits c ≡ 1 = rw found refl in
      elim (Bool-cases c.tracking_job_dispatched) [
        | inl old ↦ rw old (omega (arith, pending-put r.chunks key (drop_job c), one))
        | inr new ↦
            let marked = put r.chunks key (mark_dispatched c) in
            let c' : get_or marked key no_chunk ≡ mark_dispatched c =
              get_or-put_self r.chunks key (mark_dispatched c) no_chunk in
            let one' : waits (get_or marked key no_chunk) ≡ 1 = rw c' one in
            rw new (
              omega (
                arith,
                pending-put r.chunks key (mark_dispatched c),
                pending-put marked key (drop_job (get_or marked key no_chunk)),
                one,
                one',
              ))
      ]

  -- With more fuel than there are jobs that wait, the dispatch loop stops by its own test: no job
  -- waits at the index it returns.
  pub dispatch_loop_stops :
      (fuel next : ℕ) (r : Redis N)
      → pending r.chunks < fuel
      → let (next', r') = dispatch_loop a fuel next r in
        (chunk_at r' (lua_chunk_key a.prefix next')).tracking_job_payload ≡ none
  unfolding dispatch_loop
  dispatch_loop_stops zero next r enough = absurd (omega arith)
  dispatch_loop_stops (suc fuel) next r enough =
      elim (Option-cases (chunk_at r (lua_chunk_key a.prefix next)).tracking_job_payload) [
        | inl stop ↦ rw (stop, dispatch_loop) stop
        | inr (payload, found) ↦
            rw (found, dispatch_loop)
              (dispatch_loop_stops fuel (next + 1)
                (send_job a (lua_chunk_key a.prefix next) payload r)
                (omega (arith, pending-send_job (lua_chunk_key a.prefix next) payload r found)))
      ]
