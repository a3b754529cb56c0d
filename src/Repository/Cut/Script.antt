-- ===== src/Repository/Cut/Script.antt =====
-- The whole of the dispatch script.
use cv_video_analysis.Common.{
  if_elim, ==_iff, ℕ, suc, ◌≤◌, ◌≡◌, refl, ap, sym, ◌∙◌, Bool, true, false, not, some, List, arith,
  if◌then◌else◌, is_some, or_else, Bool-cases, inl, inr, ◌==◌,
}
use cv_video_analysis.Common.Texts.{Text}
use cv_video_analysis.Common.Indices.{mem, mem-add, add}
use cv_video_analysis.Common.Maps.{get_or-put, get_or-put_self}
use cv_video_analysis.Domain.Floats.{Floats}
use cv_video_analysis.Store.{TaskHash, StreamEntry, Redis, task_at}
use cv_video_analysis.Store.Keys.{lua_chunk_key, chunk_key_prefix, chunk_key, chunk_id, task_key}
use cv_video_analysis.Store.Keys.Canonical.{lua_chunk_key_eq, chunk_key_canonical}
use cv_video_analysis.Repository.Cut.{
  set_task, CutArguments, pending, dispatch_loop, store_cut, cut_task_fields, record_cut_script,
  job_entry,
}
use cv_video_analysis.Repository.Cut.Pending.{dispatch_loop_stops}
use cv_video_analysis.Repository.Cut.Order.{
  for_task, lua_chunk, Dispatched, dispatch_loop-Dispatched,
}

module _ {N : Type 0} (F : Floats N) (a : CutArguments) (task : Text) where
  abbrev pub next_of : Redis N → ℕ
  next_of r = or_else (task_at r (task_key task)).next_tracking_chunk 0

  -- One delivery of a cut result.
  abbrev pub record_cut : ℕ → Text → Text → Text → Redis N → (Bool × ℕ × ℕ × ℕ) × Redis N
  record_cut i cut_payload object_ref job r =
      record_cut_script F (for_task a task) (task_key task) (chunk_key task (chunk_id task i))
        cut_payload object_ref i job r

  abbrev store : ℕ → Text → Text → Text → Redis N → Redis N
  store i cut_payload object_ref job r =
      store_cut (for_task a task) (lua_chunk_key (chunk_key_prefix task) i) cut_payload object_ref i
        job r

  chunk_at-store :
      (i j : ℕ) (cut_payload object_ref job : Text) (r : Redis N)
      → lua_chunk task (store i cut_payload object_ref job r) j ≡ (
          if i == j
          then record (lua_chunk task r i) {
            cut_done = true;
            cut_payload = some cut_payload;
            object_ref = some object_ref;
            chunk_index = some i;
            tracking_job_payload = some job;
            chunk_expires = some a.ttl;
          }
          else lua_chunk task r j)
  unfolding store_cut
  chunk_at-store i j cut_payload object_ref job r = rw (get_or-put, lua_chunk_key_eq)

  next-cut_task_fields :
      (is_new : Bool) (next : ℕ) (h : TaskHash N)
      → (cut_task_fields F (for_task a task) is_new next h).next_tracking_chunk ≡ some next
  unfolding cut_task_fields
  next-cut_task_fields is_new next h =
      if_elim (λ (g : TaskHash N). g.next_tracking_chunk ≡ some next) _ _ _ (λ e. refl) (λ e. refl)

  -- The task's own hash is no part of the invariant.
  Dispatched-set_task :
      (P : ℕ → StreamEntry → Type 0) (before : List StreamEntry) (got : List ℕ) (next : ℕ)
      (r : Redis N) (t : TaskHash N)
      → Dispatched a task P before got next r
      → Dispatched a task P before got next (set_task r (task_key task) t)
  Dispatched-set_task P before got next r t h = record {
    log = h.log;
    logged = h.logged;
    in_order = h.in_order;
    length_log = h.length_log;
    waiting = h.waiting;
    unsent = h.unsent;
    seen = h.seen;
    arrived = h.arrived;
    buffered = h.buffered;
  }

  module _ (P : ℕ → StreamEntry → Type 0) (before : List StreamEntry) (got : List ℕ) where
    store-Dispatched :
        (i next : ℕ) (cut_payload object_ref job : Text) (r : Redis N)
        → Dispatched a task P before got next r
        → P i (job_entry a job)
        → Dispatched a task P before (add i got) next (store i cut_payload object_ref job r)
    store-Dispatched i next cut_payload object_ref job r h own =
        let r' = store i cut_payload object_ref job r in
        record {
          log = h.log;
          logged = unfold store_cut in h.logged;
          in_order = h.in_order;
          length_log = h.length_log;
          waiting = λ j q le e. elim (Bool-cases (i == j)) [
            | inl same ↦
                let ij : i ≡ j = (==_iff i j).0 same in
                let stored : some job ≡ some q =
                  rw (chunk_at-store i j cut_payload object_ref job r, same) at e in
                let jq : job ≡ q = cc stored in rw (← ij, ← jq) own
            | inr apart ↦
                h.waiting j q le (rw (chunk_at-store i j cut_payload object_ref job r, apart) at e)
          ];
          unsent = λ j le.
              rw (chunk_at-store i j cut_payload object_ref job r) (ground (arith, h.unsent j le));
          seen = λ j.
              rw (chunk_at-store i j cut_payload object_ref job r, mem-add)
                (ground (arith, h.seen j));
          arrived = λ j lt. rw mem-add (ground (arith, h.arrived j lt));
          buffered = λ j le.
              rw (chunk_at-store i j cut_payload object_ref job r, mem-add)
                (ground (arith, h.buffered j le));
        }

    -- If the tracking jobs dispatched so far are in the order of their chunks, each once, and
    -- every stored job is its own chunk's, then a delivery of the cut result of any chunk keeps
    -- this, counts the result as new exactly if it had not arrived, never moves the next index
    -- back, and stops at the first chunk whose cut result has not arrived.
    pub record_cut-Dispatched :
        (i : ℕ) (cut_payload object_ref job : Text) (r : Redis N)
        → Dispatched a task P before got (next_of r) r
        → P i (job_entry a job)
        → let ((is_new, count, next, total), r') = record_cut i cut_payload object_ref job r in
          Dispatched a task P before (add i got) (next_of r') r'
          × (mem (next_of r') (add i got) ≡ false)
          × (next ≡ next_of r')
          × (next_of r ≤ next_of r')
          × (is_new ≡ not (mem i got))
    unfolding record_cut_script
    record_cut-Dispatched i cut_payload object_ref job r h own =
        let stored = store i cut_payload object_ref job r in
        let fuel = suc (pending stored.chunks) in
        let loop = dispatch_loop (for_task a task) fuel (next_of r) stored in
        let went =
          dispatch_loop-Dispatched a task P before (add i got) fuel (next_of r) stored
            (store-Dispatched i (next_of r) cut_payload object_ref job r h own) in
        let stops = dispatch_loop_stops (for_task a task) fuel (next_of r) stored (omega arith) in
        let gap : mem loop.0 (add i got) ≡ false =
          sym (went.0.buffered loop.0 (omega arith)) ∙ ap is_some stops in
        rw ((chunk_key_canonical task i).0, get_or-put_self, next-cut_task_fields)
          (
            Dispatched-set_task P before (add i got) loop.0 loop.1 _ went.0,
            gap,
            refl,
            went.1,
            ap not (h.seen i),
          )
