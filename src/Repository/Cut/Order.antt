-- ===== src/Repository/Cut/Order.antt =====
-- Tracking jobs are dispatched in the order of their chunks, each once, as far as the cut results
-- have arrived without a gap.
use cv_video_analysis.Common.{
  ℕ, zero, suc, ◌+◌, ◌≤◌, ◌<◌, ◌≡◌, refl, ap, sym, ◌∙◌, true, false, some, List, [], ◌∷◌, ◌++◌,
  append_assoc, arith, if◌then◌else◌, is_some, Bool-cases, Option-cases, inl, inr, length,
  length-append, ◌==◌,
}
use native.Mathlib.Decide.{ℕ_discrete}
use cv_video_analysis.Common.Texts.{Text}
use cv_video_analysis.Common.Indices.{mem}
use cv_video_analysis.Common.Maps.{get_or-put, get_or-put_self}
use cv_video_analysis.Store.{ChunkHash, StreamEntry, Redis, chunk_at, stream_at}
use cv_video_analysis.Store.Keys.{lua_chunk_key, chunk_key_prefix}
use cv_video_analysis.Store.Keys.Canonical.{lua_chunk_key_eq}
use cv_video_analysis.Repository.Cut.{
  CutArguments, send_job, dispatch_loop, job_entry, mark_dispatched, drop_job,
}

-- The entries are of the indices `n`, `n + 1`, … in turn.
abbrev pub InOrder : (ℕ → StreamEntry → Type 0) → ℕ → List StreamEntry → Type 0
InOrder P n [] = Unit
InOrder P n (e ∷ l) = P n e × InOrder P (suc n) l

pub InOrder-snoc :
    (P : ℕ → StreamEntry → Type 0) (n : ℕ) (l : List StreamEntry) (e : StreamEntry) (k : ℕ)
    → n + length l ≡ k
    → InOrder P n l
    → P k e
    → InOrder P n (l ++ e ∷ [])
InOrder-snoc P n [] e k s o p = let same : n ≡ k = omega arith in rw same (p, tt)
InOrder-snoc P n (d ∷ l) e k s o p = (o.0, InOrder-snoc P (suc n) l e k (omega arith) o.1 p)

-- The arguments of the script for one task.
abbrev pub for_task : CutArguments → Text → CutArguments
for_task a task = record a { prefix = chunk_key_prefix task }

abbrev key : Text → ℕ → Text
key task i = lua_chunk_key (chunk_key_prefix task) i

abbrev pub lua_chunk : {N : Type 0} → Text → Redis N → ℕ → ChunkHash
lua_chunk task r i = chunk_at r (lua_chunk_key (chunk_key_prefix task) i)

-- The cut results `got` have arrived, and the jobs below `next` are dispatched. `P i e` is any
-- property that the caller's job for chunk `i` has.
module _ {N : Type 0} (a : CutArguments) (task : Text) (P : ℕ → StreamEntry → Type 0)
    (before : List StreamEntry) where
  pub record Dispatched (got : List ℕ) (next : ℕ) (r : Redis N) : Type 0 where
    pub log : List StreamEntry
    pub logged : stream_at r a.stream ≡ before ++ log
    pub in_order : InOrder P 0 log
    pub length_log : length log ≡ next
    pub waiting :
        (i : ℕ) (p : Text)
        → next ≤ i
        → (lua_chunk task r i).tracking_job_payload ≡ some p
        → P i (job_entry a p)
    pub unsent : (i : ℕ) → next ≤ i → (lua_chunk task r i).tracking_job_dispatched ≡ false
    pub seen : (i : ℕ) → (lua_chunk task r i).cut_done ≡ mem i got
    pub arrived : (i : ℕ) → i < next → mem i got ≡ true
    pub buffered :
        (i : ℕ) → next ≤ i → is_some (lua_chunk task r i).tracking_job_payload ≡ mem i got

module _ {N : Type 0} (a : CutArguments) (task : Text) where
  chunk_at-send_job :
      (next i : ℕ) (p : Text) (r : Redis N)
      → (lua_chunk task r next).tracking_job_dispatched ≡ false
      → lua_chunk task (send_job (for_task a task) (key task next) p r) i ≡ (
          if next == i
          then drop_job (mark_dispatched (lua_chunk task r next))
          else lua_chunk task r i)
  unfolding send_job
  chunk_at-send_job next i p r new = elim (Bool-cases (next == i)) [
    | inl same ↦ rw (new, get_or-put, lua_chunk_key_eq, same) (rw get_or-put_self refl)
    | inr apart ↦
        rw (new, get_or-put, lua_chunk_key_eq, apart)
          (rw (get_or-put, lua_chunk_key_eq, apart) refl)
  ]

  stream_at-send_job :
      (next : ℕ) (p : Text) (r : Redis N)
      → (lua_chunk task r next).tracking_job_dispatched ≡ false
      → stream_at (send_job (for_task a task) (key task next) p r) a.stream
        ≡ stream_at r a.stream ++ job_entry a p ∷ []
  unfolding send_job
  stream_at-send_job next p r new = rw new (rw get_or-put_self refl)

module _ {N : Type 0} (a : CutArguments) (task : Text) (P : ℕ → StreamEntry → Type 0)
    (before : List StreamEntry) (got : List ℕ) where
  -- A round of the loop.
  send_job-Dispatched :
      (next : ℕ) (p : Text) (r : Redis N)
      → Dispatched a task P before got next r
      → (lua_chunk task r next).tracking_job_payload ≡ some p
      → Dispatched a task P before got (next + 1) (send_job (for_task a task) (key task next) p r)
  send_job-Dispatched next p r h found =
      let new : (lua_chunk task r next).tracking_job_dispatched ≡ false =
        h.unsent next (omega arith) in
      let r' = send_job (for_task a task) (key task next) p r in
      let later : (i : ℕ) → next + 1 ≤ i → lua_chunk task r' i ≡ lua_chunk task r i = λ i le.
        let apart : (next == i) ≡ false = ground arith in
        rw (chunk_at-send_job a task next i p r new, apart) in
      record {
        log = h.log ++ job_entry a p ∷ [];
        logged =
            rw (stream_at-send_job a task next p r new, h.logged)
              (append_assoc before h.log (job_entry a p ∷ []));
        in_order =
            InOrder-snoc P 0 h.log (job_entry a p) next (omega (arith, h.length_log)) h.in_order
              (h.waiting next p (omega arith) found);
        length_log = omega (arith, length-append h.log (job_entry a p ∷ []), h.length_log);
        waiting = λ i q le e. h.waiting i q (omega arith) (rw (later i le) at e);
        unsent = λ i le. rw (later i le) (h.unsent i (omega arith));
        seen = λ i. rw (chunk_at-send_job a task next i p r new) (ground (arith, h.seen i));
        arrived = λ i lt. elim (ℕ_discrete i next) [
          | yes e ↦ rw e (sym (h.buffered next (omega arith)) ∙ ap is_some found)
          | no n ↦ h.arrived i (omega arith)
        ];
        buffered = λ i le. rw (later i le) (h.buffered i (omega arith));
      }

  pub dispatch_loop-Dispatched :
      (fuel next : ℕ) (r : Redis N)
      → Dispatched a task P before got next r
      → let (next', r') = dispatch_loop (for_task a task) fuel next r in
        Dispatched a task P before got next' r' × (next ≤ next')
  unfolding dispatch_loop
  dispatch_loop-Dispatched zero next r h = (h, omega arith)
  dispatch_loop-Dispatched (suc fuel) next r h =
      elim (Option-cases (lua_chunk task r next).tracking_job_payload) [
        | inl stop ↦ rw (stop, dispatch_loop) (h, omega arith)
        | inr (p, found) ↦
            let rest =
              dispatch_loop-Dispatched fuel (next + 1)
                (send_job (for_task a task) (key task next) p r)
                (send_job-Dispatched next p r h found) in
            rw (found, dispatch_loop) (rest.0, omega (arith, rest.1))
      ]
