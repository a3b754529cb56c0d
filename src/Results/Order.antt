-- ===== src/Results/Order.antt =====
-- The order of the cut results in backend/app/services/result_aggregation.py.
use cv_video_analysis.Common.{[], ◌∷◌, ◌∷◌, List, All, if_elim, leb}
use cv_video_analysis.Results.{CutResult, insert_cut, sort_cuts}

-- Sorting keeps what holds of every result.
pub All-insert_cut :
    {N : Type 0} (P : CutResult N → Type 0) (c : CutResult N) (ds : List (CutResult N))
    → P c
    → All P ds
    → All P (insert_cut c ds)
unfolding insert_cut
All-insert_cut P c [] pc h = (pc, tt)
All-insert_cut P c (d ∷ ds) pc (pd, h) =
    if_elim (All P) (leb c.chunk_index d.chunk_index) (c ∷ d ∷ ds) (d ∷ insert_cut c ds)
      (λ e. (pc, (pd, h))) (λ e. (pd, All-insert_cut P c ds pc h))

pub All-sort_cuts :
    {N : Type 0} (P : CutResult N → Type 0) (cs : List (CutResult N))
    → All P cs
    → All P (sort_cuts cs)
unfolding sort_cuts
All-sort_cuts P [] h = tt
All-sort_cuts P (c ∷ cs) (pc, h) = All-insert_cut P c (sort_cuts cs) pc (All-sort_cuts P cs h)

pub All-uninsert :
    {N : Type 0} (P : CutResult N → Type 0) (c : CutResult N) (ds : List (CutResult N))
    → All P (insert_cut c ds)
    → P c × All P ds
unfolding insert_cut
All-uninsert P c [] h = h
All-uninsert P c (d ∷ ds) h =
    if_elim (λ l. All P l → P c × All P (d ∷ ds)) (leb c.chunk_index d.chunk_index) (c ∷ d ∷ ds)
      (d ∷ insert_cut c ds) (λ e k. k)
      (λ e k. let (pc, rest) = All-uninsert P c ds k.1 in (pc, (k.0, rest))) h

pub All-unsort :
    {N : Type 0} (P : CutResult N → Type 0) (cs : List (CutResult N))
    → All P (sort_cuts cs)
    → All P cs
unfolding sort_cuts
All-unsort P [] h = tt
All-unsort P (c ∷ cs) h =
    let (pc, rest) = All-uninsert P c (sort_cuts cs) h in (pc, All-unsort P cs rest)
