-- ===== src/Registry/Slots.antt =====
-- The registry as its clients see it: each token is free, reserved or held, and at most so many are
-- not free.
use cv_video_analysis.Common.{
  refl, ◌⊎◌, ℕ, ◌≤◌, ◌≡◌, Bool, true, false, not, ◌&&◌, ◌||◌, Option, none, some, List, [], ◌∷◌,
  if◌then◌else◌, leb, arith, Bool-cases, inl, inr,
}
use cv_video_analysis.Common.Texts.{Text, text_eq, text_eq_iff}
use cv_video_analysis.Common.Tables.{
  lookup, member, discard, IsTable, IsTextSet, lookup-put, lookup-remove, length-put, length-remove,
  put-IsTable, remove-IsTable, member-discard, length-discard, discard-IsTextSet,
}
use cv_video_analysis.Registry.{
  put, Registry, Entry, Descriptor, count, is_registered, reserve, cancel_reservation, register_ref,
  release,
}

-- The calls that change the state.
pub data Call (Ref : Type 0) : Type 0 where
  reserve_call cancel_call release_call : Text → Call Ref
  register_call : Text → Ref → Descriptor → Call Ref

pub data Slot (Ref : Type 0) : Type 0 where
  free reserved : Slot Ref
  held : Entry Ref → Slot Ref

module _ {Ref : Type 0} where
  abbrev pub token_of : Call Ref → Text
  token_of (reserve_call t) = t
  token_of (cancel_call t) = t
  token_of (release_call t) = t
  token_of (register_call t ref d) = t

  unfoldable pub run_call : ℕ → Call Ref → Registry Ref → Registry Ref
  unfolding reserve cancel_reservation register_ref release
  run_call max_objects (reserve_call t) r = (reserve t max_objects r).1
  run_call max_objects (cancel_call t) r = (cancel_reservation t r).1
  run_call max_objects (release_call t) r = (release t r).1
  run_call max_objects (register_call t ref d) r = (register_ref t ref d max_objects r).1

  -- What a client sees of a token.
  abbrev pub slot_of : Option (Entry Ref) → Bool → Slot Ref
  slot_of (some entry) is_reserved = held entry
  slot_of none true = reserved
  slot_of none false = free

  abbrev pub slot : Registry Ref → Text → Slot Ref
  slot r t = slot_of (lookup r.entries t) (member t r.reservations)

  -- What a call should do to its own token, where the registry is full or not.
  pub slot_after : Bool → Call Ref → Slot Ref → Slot Ref
  slot_after full (reserve_call t) free = if full then free else reserved
  slot_after full (reserve_call t) s = s
  slot_after full (cancel_call t) reserved = free
  slot_after full (cancel_call t) s = s
  slot_after full (release_call t) s = free
  slot_after full (register_call t ref d) free =
      if full then free else held (record { object_ref = ref; descriptor = d })
  slot_after full (register_call t ref d) reserved =
      held (record { object_ref = ref; descriptor = d })
  slot_after full (register_call t ref d) (held entry) = held entry

  pub record IsRegistry (max_objects : ℕ) (r : Registry Ref) : Type 0 where
    pub table : IsTable r.entries
    pub set : IsTextSet r.reservations
    pub disjoint : (t : Text) → is_registered r t ≡ true → member t r.reservations ≡ false
    pub within : count r ≤ max_objects

  reserve-IsRegistry :
      (max_objects : ℕ) (t : Text) (r : Registry Ref)
      → IsRegistry max_objects r
      → IsRegistry max_objects (reserve t max_objects r).1
  unfolding reserve
  reserve-IsRegistry max_objects t r h =
      elim (Bool-cases (is_registered r t || member t r.reservations)) [
        | inl taken ↦ rw taken h
        | inr new ↦ elim (Bool-cases (leb max_objects (count r))) [
          | inl full ↦ rw (new, full) h
          | inr room ↦
              rw (new, room)
                (record {
                  table = h.table;
                  set = (ground arith, h.set);
                  disjoint =
                      λ s e. unfold member in ground (arith, text_eq_iff t s, h.disjoint s e);
                  within = ground (arith, h.within);
                })
        ]
      ]

  discard-IsRegistry :
      (max_objects : ℕ) (t : Text) (r : Registry Ref)
      → IsRegistry max_objects r
      → IsRegistry max_objects (record r { reservations = discard t r.reservations })
  discard-IsRegistry max_objects t r h = record {
    table = h.table;
    set = discard-IsTextSet t r.reservations h.set;
    disjoint = λ s e. ground (arith, member-discard t s r.reservations, h.disjoint s e);
    within = omega (arith, length-discard t r.reservations h.set, h.within);
  }

  register_ref-IsRegistry :
      (max_objects : ℕ) (t : Text) (ref : Ref) (d : Descriptor) (r : Registry Ref)
      → IsRegistry max_objects r
      → IsRegistry max_objects (register_ref t ref d max_objects r).1
  unfolding register_ref
  register_ref-IsRegistry max_objects t ref d r h = elim (Bool-cases (is_registered r t)) [
    | inl old ↦ rw old (discard-IsRegistry max_objects t r h)
    | inr new ↦ elim (Bool-cases (not (member t r.reservations) && leb max_objects (count r))) [
      | inl full ↦ rw (new, full) h
      | inr room ↦
          rw (new, room)
            (record {
              table = put-IsTable r.entries t _ h.table;
              set = discard-IsTextSet t r.reservations h.set;
              disjoint = λ s e. ground (
                arith,
                member-discard t s r.reservations,
                lookup-put r.entries t s (record { object_ref = ref; descriptor = d }),
                h.disjoint s,
                e,
              );
              within = ground (
                arith,
                length-discard t r.reservations h.set,
                length-put r.entries t (record { object_ref = ref; descriptor = d }),
                h.within,
                new,
                room,
              );
            })
    ]
  ]

  release-IsRegistry :
      (max_objects : ℕ) (t : Text) (r : Registry Ref)
      → IsRegistry max_objects r
      → IsRegistry max_objects (release t r).1
  unfolding release
  release-IsRegistry max_objects t r h = record {
    table = remove-IsTable r.entries t h.table;
    set = discard-IsTextSet t r.reservations h.set;
    disjoint = λ s e.
        ground
          (arith, member-discard t s r.reservations, lookup-remove r.entries t s, h.disjoint s, e);
    within =
        omega (
          arith,
          length-discard t r.reservations h.set,
          length-remove r.entries t h.table,
          h.within,
        );
  }

  cancel-IsRegistry :
      (max_objects : ℕ) (t : Text) (r : Registry Ref)
      → IsRegistry max_objects r
      → IsRegistry max_objects (cancel_reservation t r).1
  unfolding cancel_reservation
  cancel-IsRegistry max_objects t r h = elim (Bool-cases (member t r.reservations)) [
    | inl there ↦ rw there (discard-IsRegistry max_objects t r h)
    | inr gone ↦ rw gone h
  ]

  pub run_call-IsRegistry :
      (max_objects : ℕ) (c : Call Ref) (r : Registry Ref)
      → IsRegistry max_objects r
      → IsRegistry max_objects (run_call max_objects c r)
  unfolding run_call
  run_call-IsRegistry max_objects (reserve_call t) r h = reserve-IsRegistry max_objects t r h
  run_call-IsRegistry max_objects (cancel_call t) r h = cancel-IsRegistry max_objects t r h
  run_call-IsRegistry max_objects (release_call t) r h = release-IsRegistry max_objects t r h
  run_call-IsRegistry max_objects (register_call t ref d) r h =
      register_ref-IsRegistry max_objects t ref d r h

  pub run_calls : ℕ → List (Call Ref) → Registry Ref → Registry Ref
  run_calls max_objects [] r = r
  run_calls max_objects (c ∷ cs) r = run_calls max_objects cs (run_call max_objects c r)

  -- Whatever the clients call, in whatever order, entries and reservations together never exceed
  -- the maximum, no token is in both, and none occurs twice.
  pub run_calls-IsRegistry :
      (max_objects : ℕ) (cs : List (Call Ref)) (r : Registry Ref)
      → IsRegistry max_objects r
      → IsRegistry max_objects (run_calls max_objects cs r)
  unfolding run_calls
  run_calls-IsRegistry max_objects [] r h = h
  run_calls-IsRegistry max_objects (c ∷ cs) r h =
      run_calls-IsRegistry max_objects cs (run_call max_objects c r)
        (run_call-IsRegistry max_objects c r h)

  abbrev Refines : ℕ → Call Ref → Registry Ref → Text → Type 0
  Refines max_objects c r j = slot (run_call max_objects c r) j ≡ (
      if text_eq (token_of c) j
      then slot_after (leb max_objects (count r)) c (slot r j)
      else slot r j)

  reserve_cases :
      (max_objects : ℕ) (t : Text) (r : Registry Ref)
      → ((is_registered r t || member t r.reservations) ≡ true
          × run_call max_objects (reserve_call t) r ≡ r)
        ⊎ ((is_registered r t || member t r.reservations) ≡ false
            × leb max_objects (count r) ≡ true
            × run_call max_objects (reserve_call t) r ≡ r)
        ⊎ ((is_registered r t || member t r.reservations) ≡ false
            × leb max_objects (count r) ≡ false
            × run_call max_objects (reserve_call t) r
              ≡ record r { reservations = t ∷ r.reservations })
  unfolding run_call reserve
  reserve_cases max_objects t r = elim (Bool-cases (is_registered r t || member t r.reservations)) [
    | inl taken ↦ inl (taken, rw (run_call, taken) refl)
    | inr new ↦ elim (Bool-cases (leb max_objects (count r))) [
      | inl full ↦ inr (inl (new, full, rw (run_call, new, full) refl))
      | inr room ↦ inr (inr (new, room, rw (run_call, new, room) refl))
    ]
  ]

  reserve-Refines :
      (max_objects : ℕ) (t j : Text) (r : Registry Ref) → Refines max_objects (reserve_call t) r j
  unfolding slot_after member
  reserve-Refines max_objects t j r = elim (reserve_cases max_objects t r) [
    | inl (taken, e) ↦ rw e (ground (arith, text_eq_iff t j, taken))
    | inr (inl (new, full, e)) ↦ rw e (ground (arith, text_eq_iff t j, new, full))
    | inr (inr (new, room, e)) ↦ rw e (ground (arith, text_eq_iff t j, new, room))
  ]

  cancel_cases :
      (max_objects : ℕ) (t : Text) (r : Registry Ref)
      → (member t r.reservations ≡ false × run_call max_objects (cancel_call t) r ≡ r)
        ⊎ (member t r.reservations ≡ true
            × run_call max_objects (cancel_call t) r
              ≡ record r { reservations = discard t r.reservations })
  unfolding run_call cancel_reservation
  cancel_cases max_objects t r = elim (Bool-cases (member t r.reservations)) [
    | inl there ↦ inr (there, rw (run_call, there) refl)
    | inr gone ↦ inl (gone, rw (run_call, gone) refl)
  ]

  cancel-Refines :
      (max_objects : ℕ) (t j : Text) (r : Registry Ref)
      → IsRegistry max_objects r
      → Refines max_objects (cancel_call t) r j
  unfolding slot_after
  cancel-Refines max_objects t j r h = elim (cancel_cases max_objects t r) [
    | inl (gone, e) ↦ rw e (ground (arith, text_eq_iff t j, gone))
    | inr (there, e) ↦ rw (e, member-discard) (ground (arith, text_eq_iff t j, there, h.disjoint t))
  ]

  release-Refines :
      (max_objects : ℕ) (t j : Text) (r : Registry Ref) → Refines max_objects (release_call t) r j
  unfolding run_call release slot_after
  release-Refines max_objects t j r =
      rw (lookup-remove, member-discard) (ground (arith, text_eq_iff t j))

  register_cases :
      (max_objects : ℕ) (t : Text) (ref : Ref) (d : Descriptor) (r : Registry Ref)
      → let r' = run_call max_objects (register_call t ref d) r in
        (is_registered r t ≡ true × r' ≡ record r { reservations = discard t r.reservations })
        ⊎ (is_registered r t ≡ false
            × (not (member t r.reservations) && leb max_objects (count r)) ≡ true
            × r' ≡ r)
        ⊎ (is_registered r t ≡ false
            × (not (member t r.reservations) && leb max_objects (count r)) ≡ false
            × r' ≡ record {
              entries = put r.entries t (record { object_ref = ref; descriptor = d });
              reservations = discard t r.reservations;
            })
  unfolding run_call register_ref
  register_cases max_objects t ref d r = elim (Bool-cases (is_registered r t)) [
    | inl old ↦ inl (old, rw (run_call, old) refl)
    | inr new ↦ elim (Bool-cases (not (member t r.reservations) && leb max_objects (count r))) [
      | inl full ↦ inr (inl (new, full, rw (run_call, new, full) refl))
      | inr room ↦ inr (inr (new, room, rw (run_call, new, room) refl))
    ]
  ]

  register-Refines :
      (max_objects : ℕ) (t j : Text) (ref : Ref) (d : Descriptor) (r : Registry Ref)
      → Refines max_objects (register_call t ref d) r j
  unfolding slot_after
  register-Refines max_objects t j ref d r = elim (register_cases max_objects t ref d r) [
    | inl (old, e) ↦ rw (e, member-discard) (ground (arith, text_eq_iff t j, old))
    | inr (inl (new, full, e)) ↦ rw e (ground (arith, text_eq_iff t j, new, full))
    | inr (inr (new, room, e)) ↦
        rw (e, member-discard, lookup-put) (ground (arith, text_eq_iff t j, new, room))
  ]

  -- On a registry whose tables are sound, every call that changes it does to the slot of its own
  -- token what the slot machine of free, reserved and held tokens prescribes, given whether the
  -- registry is full, and changes no other slot.
  pub run_call-slot :
      (max_objects : ℕ) (c : Call Ref) (r : Registry Ref) (j : Text)
      → IsRegistry max_objects r
      → slot (run_call max_objects c r) j ≡ (
          if text_eq (token_of c) j
          then slot_after (leb max_objects (count r)) c (slot r j)
          else slot r j)
  run_call-slot max_objects (reserve_call t) r j h = reserve-Refines max_objects t j r
  run_call-slot max_objects (cancel_call t) r j h = cancel-Refines max_objects t j r h
  run_call-slot max_objects (release_call t) r j h = release-Refines max_objects t j r
  run_call-slot max_objects (register_call t ref d) r j h = register-Refines max_objects t j ref d r
