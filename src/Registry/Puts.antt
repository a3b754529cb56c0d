-- ===== src/Registry/Puts.antt =====
-- `RayObjectStore.put` for a new token: it stores the reference, or leaves no trace.
use cv_video_analysis.Common.{
  ℕ, ◌+◌, ◌≤◌, ◌<◌, ◌≡◌, refl, ap, ◌∙◌, true, false, Option, none, some, [], ◌∷◌, if◌then◌else◌,
  leb, arith,
}
use cv_video_analysis.Common.Texts.{Text, text_eq, text_eq_refl}
use cv_video_analysis.Common.Maps.{put}
use cv_video_analysis.Common.Tables.{
  lookup, member, discard, lookup-put, length-put, discard_missing,
}
use cv_video_analysis.Registry.{
  Registry, Descriptor, Reply, replied, failed, capacity_reached, put_failed, count, reserve,
  cancel_reservation, register, register_ref, get_entry, resolve, after_reserve, after_register,
  put_object,
}
use cv_video_analysis.Registry.Slots.{free, held, slot}

module _ {Ref : Type 0} (token : Text) (max_objects : ℕ) (d : Descriptor) (r : Registry Ref)
    (new : slot r token ≡ free) where
  not_there : (lookup r.entries token ≡ none) × (member token r.reservations ≡ false)
  not_there = ground (arith, new)

  abbrev with_reservation : Registry Ref
  with_reservation = record r { reservations = token ∷ r.reservations }

  reserve_full : max_objects ≤ count r → reserve token max_objects r ≡ (failed capacity_reached, r)
  unfolding reserve
  reserve_full full =
      let test : leb max_objects (count r) ≡ true = ground arith in
      rw (not_there.0, not_there.1, test) refl

  reserve_room :
      count r < max_objects → reserve token max_objects r ≡ (replied token, with_reservation)
  unfolding reserve
  reserve_room room =
      let test : leb max_objects (count r) ≡ false = ground arith in
      rw (not_there.0, not_there.1, test) refl

  cancelled : (cancel_reservation token with_reservation).1 ≡ r
  unfolding cancel_reservation member discard
  cancelled = rw (text_eq_refl, discard_missing token r.reservations not_there.1) refl

  registered :
      (ref : Ref)
      → register token (ref ∷ []) d max_objects with_reservation ≡ (
        replied token,
        record r { entries = put r.entries token (record { object_ref = ref; descriptor = d }) },
      )
  unfolding register register_ref member discard
  registered ref =
      rw (not_there.0, text_eq_refl, discard_missing token r.reservations not_there.1) refl

  put_object_stored :
      (ref : Ref)
      → count r < max_objects
      → put_object token max_objects (some ref) d r ≡ (
        replied token,
        record r { entries = put r.entries token (record { object_ref = ref; descriptor = d }) },
      )
  unfolding put_object after_reserve after_register
  put_object_stored ref room =
      ap (after_reserve token max_objects (some ref) d) (reserve_room room)
      ∙ ap (after_register token) (registered ref)

  put_object_failed :
      count r < max_objects → put_object token max_objects none d r ≡ (failed put_failed, r)
  unfolding put_object after_reserve
  put_object_failed room =
      ap (after_reserve token max_objects none d) (reserve_room room)
      ∙ (let out : Registry Ref → Reply Text × Registry Ref = λ s. (failed put_failed, s) in
          ap out cancelled)

  put_object_full :
      (stored : Option Ref)
      → max_objects ≤ count r
      → put_object token max_objects stored d r ≡ (failed capacity_reached, r)
  unfolding put_object after_reserve
  put_object_full stored full = ap (after_reserve token max_objects stored d) (reserve_full full)

  -- Put with a free token: in a full registry it raises and changes nothing; if Ray does not store
  -- the value it raises and the reservation is gone again; otherwise it returns the token, which
  -- resolves to the reference, takes one slot, and leaves the other slots as they were.
  pub put_object_lem :
      (stored : Option Ref)
      → let (reply, r') = put_object token max_objects stored d r in
        (max_objects ≤ count r → (reply ≡ failed capacity_reached) × (r' ≡ r))
        × (count r < max_objects → stored ≡ none → (reply ≡ failed put_failed) × (r' ≡ r))
        × ((ref : Ref)
            → count r < max_objects
            → stored ≡ some ref
            → (reply ≡ replied token)
              × (resolve token r' ≡ replied (ref ∷ []))
              × (count r' ≡ count r + 1)
              × ((j : Text)
                  → slot r' j ≡ (
                      if text_eq token j
                      then held (record { object_ref = ref; descriptor = d })
                      else slot r j)))
  unfolding resolve get_entry
  put_object_lem stored = (
    λ full. rw (put_object_full stored full) (refl, refl),
    λ room e. rw (e, put_object_failed room) (refl, refl),
    λ ref room e.
        rw (e, put_object_stored ref room)
          (
            refl,
            rw (resolve, get_entry, lookup-put, text_eq_refl) refl,
            ground (
              arith,
              not_there.0,
              length-put r.entries token (record { object_ref = ref; descriptor = d }),
            ),
            λ j. rw lookup-put (ground arith),
          ),
  )
