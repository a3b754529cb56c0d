-- ===== src/Registry.antt =====
-- backend/app/ray_runtime/object_registry.py, the actor that owns the references to frames, and
-- `put` of backend/app/infrastructure/ray_store.py. The actor runs one call at a time.
pub mod Slots
pub mod Puts
use cv_video_analysis.Common.{
  ℕ, zero, suc, ◌+◌, Bool, true, false, not, ◌&&◌, ◌||◌, Option, none, some, List, [], ◌∷◌,
  if◌then◌else◌, ltb, leb, ◌==◌, length, is_some,
}
use cv_video_analysis.Common.Texts.{Text}
use cv_video_analysis.Common.Maps.{Map, put}
use cv_video_analysis.Common.Tables.{lookup, remove, member, discard}

-- The descriptor of a tensor; `none` is a shape that is no list.
pub record Descriptor : Type 0 where
  pub shape : Option (List ℕ)

pub record Entry (Ref : Type 0) : Type 0 where
  pub object_ref : Ref
  pub descriptor : Descriptor

-- `_entries` and `_reservations`
pub record Registry (Ref : Type 0) : Type 0 where
  pub entries : Map (Entry Ref)
  pub reservations : List Text

-- The exceptions, by their messages.
pub data RegistryError : Type 0 where
  capacity_reached not_one_ref unknown_token : RegistryError
  not_a_tensor not_rgb no_frames shape_mismatch : RegistryError
  put_failed : RegistryError

pub data Reply {ℓ} (A : Type ℓ) : Type ℓ where
  replied : A → Reply A
  failed : RegistryError → Reply A

module _ {Ref : Type 0} where
  -- `count`
  abbrev pub count : Registry Ref → ℕ
  count r = length r.entries + length r.reservations

  abbrev pub is_registered : Registry Ref → Text → Bool
  is_registered r token = is_some (lookup r.entries token)

  unfoldable pub reserve : Text → ℕ → Registry Ref → Reply Text × Registry Ref
  reserve token max_objects r =
      if is_registered r token || member token r.reservations
      then (replied token, r)
      else if leb max_objects (count r)
      then (failed capacity_reached, r)
      else (replied token, record r { reservations = token ∷ r.reservations })

  unfoldable pub cancel_reservation : Text → Registry Ref → Bool × Registry Ref
  cancel_reservation token r =
      if not (member token r.reservations)
      then (false, r)
      else (true, record r { reservations = discard token r.reservations })

  unfoldable pub register_ref :
      Text → Ref → Descriptor → ℕ → Registry Ref → Reply Text × Registry Ref
  register_ref token ref descriptor max_objects r =
      let reservations = discard token r.reservations in
      let entry : Entry Ref = record { object_ref = ref; descriptor = descriptor } in
      if is_registered r token
      then (replied token, record r { reservations = reservations })
      else if not (member token r.reservations) && leb max_objects (count r)
      then (failed capacity_reached, r)
      else (
        replied token,
        record { entries = put r.entries token entry; reservations = reservations },
      )

  -- `register`, with the test that the list holds one reference.
  unfoldable pub register :
      Text → List Ref → Descriptor → ℕ → Registry Ref → Reply Text × Registry Ref
  unfolding register_ref
  register token (ref ∷ []) descriptor max_objects r =
      register_ref token ref descriptor max_objects r
  register token _ descriptor max_objects r = (failed not_one_ref, r)

  -- `_get_entry`
  unfoldable pub get_entry : Text → Registry Ref → Reply (Entry Ref)
  get_entry token r = elim (lookup r.entries token) [
    | none ↦ failed unknown_token
    | some entry ↦ replied entry
  ]

  unfoldable pub resolve : Text → Registry Ref → Reply (List Ref)
  unfolding get_entry
  resolve token r = elim (get_entry token r) [
    | failed e ↦ failed e
    | replied entry ↦ replied (entry.object_ref ∷ [])
  ]

  unfoldable pub describe : Text → Registry Ref → Reply Descriptor
  unfolding get_entry
  describe token r = elim (get_entry token r) [
    | failed e ↦ failed e
    | replied entry ↦ replied entry.descriptor
  ]

  -- The release, without the call that frees the object.
  unfoldable pub release : Text → Registry Ref → Bool × Registry Ref
  release token r = (
    is_registered r token || member token r.reservations,
    record { entries = remove r.entries token; reservations = discard token r.reservations },
  )

-- `actual_shape != expected_shape`
unfoldable pub shape_eq : List ℕ → List ℕ → Bool
shape_eq [] [] = true
shape_eq (m ∷ ms) (n ∷ ns) = (m == n) && shape_eq ms ns
shape_eq _ _ = false

-- The tests of `validate_frames` on a shape; `actual` is the shape of the stored frames where the
-- payload is to be validated.
unfoldable pub validate_shape : Option (List ℕ) → List ℕ → Reply ℕ
unfolding shape_eq
validate_shape actual (t ∷ h ∷ w ∷ c ∷ []) =
    let matches : Bool = elim actual [
      | none ↦ true
      | some shape ↦ shape_eq shape (t ∷ h ∷ w ∷ c ∷ [])
    ] in
    if not (c == 3)
    then failed not_rgb
    else if t == 0
    then failed no_frames
    else if not matches
    then failed shape_mismatch
    else replied t
validate_shape actual _ = failed not_a_tensor

unfoldable pub validate_descriptor : Option (List ℕ) → Descriptor → Reply ℕ
unfolding validate_shape
validate_descriptor actual d = elim d.shape [
  | none ↦ failed not_a_tensor
  | some shape ↦ validate_shape actual shape
]

module _ {Ref : Type 0} where
  unfoldable pub validate_frames : (Ref → List ℕ) → Bool → Text → Registry Ref → Reply ℕ
  unfolding get_entry validate_descriptor
  validate_frames shape_of validate_payload token r = elim (get_entry token r) [
    | failed e ↦ failed e
    | replied entry ↦
        validate_descriptor (if validate_payload then some (shape_of entry.object_ref) else none)
          entry.descriptor
  ]

  -- `RayObjectStore.put` for a token: reserve, put, register, with the reservation cancelled where
  -- that fails. `stored` is what `ray.put` gives, or none where it raises.
  unfoldable pub after_register : Text → Reply Text × Registry Ref → Reply Text × Registry Ref
  after_register token (failed e, r) = (failed e, (cancel_reservation token r).1)
  after_register token (replied t, r) = (replied token, r)

  unfoldable pub after_reserve :
      Text → ℕ → Option Ref → Descriptor → Reply Text × Registry Ref → Reply Text × Registry Ref
  unfolding after_register
  after_reserve token max_objects stored descriptor (failed e, r) = (failed e, r)
  after_reserve token max_objects none descriptor (replied t, r) =
      (failed put_failed, (cancel_reservation token r).1)
  after_reserve token max_objects (some ref) descriptor (replied t, r) =
      after_register token (register token (ref ∷ []) descriptor max_objects r)

  unfoldable pub put_object :
      Text → ℕ → Option Ref → Descriptor → Registry Ref → Reply Text × Registry Ref
  unfolding after_reserve
  put_object token max_objects stored descriptor r =
      after_reserve token max_objects stored descriptor (reserve token max_objects r)
