-- ===== src/Repository/Ingest/Once.antt =====
-- `publish_ingest_chunk_once` publishes each chunk once, whatever is delivered again.
use cv_video_analysis.Common.{
  not, not, inr, inl, ℕ, ◌≡◌, refl, ◌∙◌, Bool, true, false, some, All, All-append, All-mono, ◌==◌,
  List, [], ◌∷◌, ◌++◌, append_assoc, arith, if◌then◌else◌, Bool-cases, length, length-append,
}
use mathlib.Core.List.{map, map-append}
use cv_video_analysis.Common.Indices.{mem, mem-append, IsDistinct, IsDistinct-snoc}
use cv_video_analysis.Common.Texts.{Text}
use cv_video_analysis.Common.Maps.{get_or-put, get_or-put_self}
use cv_video_analysis.Store.{StreamEntry, Redis, chunk_at, stream_at}
use cv_video_analysis.Store.Keys.{task_key, chunk_key, chunk_id}
use cv_video_analysis.Store.Keys.Canonical.{chunk_key_eq}
use cv_video_analysis.Repository.Ingest.{publish_script, get_ingest_published_chunks}

-- One delivery: the index of a chunk, its stream entry and its object reference.
abbrev pub Delivery : Type 0
Delivery = ℕ × StreamEntry × Text

abbrev pub index_of : Delivery → ℕ
index_of d = d.0

abbrev pub entry_of : Delivery → StreamEntry
entry_of d = d.1

abbrev pub indices : List Delivery → List ℕ
indices = map index_of

-- A delivery counts if its index is new.
abbrev pub accept_one : List Delivery → Delivery → List Delivery
accept_one taken d = if mem d.0 (indices taken) then taken else taken ++ d ∷ []

-- What the deliveries should leave: the first of each index, in the order of arrival.
unfoldable pub accept : List Delivery → List Delivery → List Delivery
accept taken [] = taken
accept taken (d ∷ ds) = accept (accept_one taken d) ds

module _ {N : Type 0} (ttl : ℕ) (task stream : Text) where
  abbrev pub publish : Delivery → Redis N → Bool × Redis N
  publish (index, entry, object_ref) r =
      publish_script ttl (task_key task) (chunk_key task (chunk_id task index)) stream entry
        object_ref index r

  unfoldable pub publish_all : List Delivery → Redis N → Redis N
  publish_all [] r = r
  publish_all (d ∷ ds) r = publish_all ds (publish d r).1

module _ {N : Type 0} (task stream : Text) (before : List StreamEntry) where
  -- The store holds exactly the deliveries `taken`, above the log `before`.
  pub record Holds (taken : List Delivery) (r : Redis N) : Type 0 where
    pub published :
        (i : ℕ)
        → (chunk_at r (chunk_key task (chunk_id task i))).ingest_published ≡ mem i (indices taken)
    pub counted : get_ingest_published_chunks task r ≡ length taken
    pub logged : stream_at r stream ≡ before ++ map entry_of taken
    pub distinct : IsDistinct (indices taken)

  -- The hash of a delivery's chunk has its payload, its reference and its index.
  abbrev pub Stored : Redis N → Delivery → Type 0
  Stored r (index, entry, object_ref) =
      let c = chunk_at r (chunk_key task (chunk_id task index)) in
      (c.ingest_payload ≡ some entry.payload)
      × (c.object_ref ≡ some object_ref)
      × (c.chunk_index ≡ some index)

  abbrev pub HoldsAll : List Delivery → Redis N → Type 0
  HoldsAll taken r = Holds taken r × All (Stored r) taken

apart_from :
    (i : ℕ) (taken : List Delivery)
    → mem i (indices taken) ≡ false
    → All (λ (d : Delivery). (d.0 == i) ≡ false) taken
unfolding mem
apart_from i [] h = tt
apart_from i (d ∷ taken) h = (ground arith, apart_from i taken (ground arith))

All-and : {A : Type 0} (P Q : A → Type 0) (l : List A) → All P l → All Q l → All (λ a. P a × Q a) l
All-and P Q [] h k = tt
All-and P Q (a ∷ l) (p, h) (q, k) = ((p, q), All-and P Q l h k)

module _ {N : Type 0} (ttl : ℕ) (task stream : Text) (before : List StreamEntry) where
  publish_old :
      (d : Delivery) (r : Redis N)
      → (chunk_at r (chunk_key task (chunk_id task d.0))).ingest_published ≡ true
      → publish ttl task stream d r ≡ (false, r)
  unfolding publish_script
  publish_old d r e = rw e

  publish_new :
      (taken : List Delivery) (d : Delivery) (r : Redis N)
      → Holds task stream before taken r
      → mem d.0 (indices taken) ≡ false
      → Holds task stream before (taken ++ d ∷ []) (publish ttl task stream d r).1
        × ((publish ttl task stream d r).0 ≡ true)
  unfolding publish_script get_ingest_published_chunks
  publish_new taken d r h new = rw (h.published d.0 ∙ new) (
    record {
      published = λ i.
          rw (get_or-put, map-append, mem-append, chunk_key_eq)
            (unfold mem in ground (arith, h.published i));
      counted = rw get_or-put_self (omega (arith, length-append taken (d ∷ []), h.counted));
      logged =
          rw (get_or-put_self, h.logged, map-append)
            (append_assoc before (map entry_of taken) (entry_of d ∷ []));
      distinct = rw map-append (IsDistinct-snoc (indices taken) d.0 h.distinct new);
    },
    refl,
  )

  Stored-now :
      (d : Delivery) (r : Redis N)
      → (chunk_at r (chunk_key task (chunk_id task d.0))).ingest_published ≡ false
      → Stored task stream before (publish ttl task stream d r).1 d
  unfolding publish_script
  Stored-now d r new = rw (new, get_or-put_self) (refl, refl, refl)

  other_chunk :
      (d : Delivery) (i : ℕ) (r : Redis N)
      → (i == d.0) ≡ false
      → chunk_at (publish ttl task stream d r).1 (chunk_key task (chunk_id task i))
        ≡ chunk_at r (chunk_key task (chunk_id task i))
  unfolding publish_script
  other_chunk d i r apart =
      let key = chunk_key task (chunk_id task d.0) in
      let flip : (d.0 == i) ≡ false = ground arith in
      elim (Bool-cases (chunk_at r key).ingest_published) [
        | inl old ↦ rw old refl
        | inr new ↦ rw (new, get_or-put, chunk_key_eq, flip) refl
      ]

  -- A delivery leaves the hashes of other chunks.
  Stored-still :
      (d e : Delivery) (r : Redis N)
      → (e.0 == d.0) ≡ false
      → Stored task stream before r e
      → Stored task stream before (publish ttl task stream d r).1 e
  Stored-still d e r apart h = rw (other_chunk d e.0 r apart) h

  -- A delivery is published exactly where its index is new.
  pub publish-Holds :
      (taken : List Delivery) (d : Delivery) (r : Redis N)
      → Holds task stream before taken r
      → Holds task stream before (accept_one taken d) (publish ttl task stream d r).1
        × ((publish ttl task stream d r).0 ≡ not (mem d.0 (indices taken)))
  publish-Holds taken d r h = elim (Bool-cases (mem d.0 (indices taken))) [
    | inl old ↦ rw (old, publish_old d r (h.published d.0 ∙ old)) (h, refl)
    | inr new ↦ rw new (publish_new taken d r h new)
  ]

  publish-HoldsAll :
      (taken : List Delivery) (d : Delivery) (r : Redis N)
      → HoldsAll task stream before taken r
      → HoldsAll task stream before (accept_one taken d) (publish ttl task stream d r).1
  publish-HoldsAll taken d r (h, stored) = elim (Bool-cases (mem d.0 (indices taken))) [
    | inl old ↦ rw (old, publish_old d r (h.published d.0 ∙ old)) (h, stored)
    | inr new ↦ rw new (
      (publish_new taken d r h new).0,
      All-append _ taken (d ∷ [])
          (All-mono (λ e k. Stored-still d e r k.0 k.1) taken
            (All-and _ _ taken (apart_from d.0 taken new) stored))
          (Stored-now d r (h.published d.0 ∙ new), tt),
    )
  ]

  -- However the deliveries of a task's chunks are ordered and repeated, a store that holds the
  -- accepted deliveries ends up holding the first delivery of each index and nothing of the
  -- others: the stream has their entries in the order of arrival, the counter their number, the
  -- flags their indices, and the hash of each one's chunk has the payload, the object reference
  -- and the index of that first delivery.
  pub publish_all-HoldsAll :
      (taken ds : List Delivery) (r : Redis N)
      → HoldsAll task stream before taken r
      → HoldsAll task stream before (accept taken ds) (publish_all ttl task stream ds r)
  unfolding publish_all accept
  publish_all-HoldsAll taken [] r h = h
  publish_all-HoldsAll taken (d ∷ ds) r h =
      publish_all-HoldsAll (accept_one taken d) ds (publish ttl task stream d r).1
        (publish-HoldsAll taken d r h)
