-- ===== src/Store/Keys/Canonical.antt =====
-- One chunk has one key, however it is named, and two chunks have two.
use cv_video_analysis.Common.{
  arith, ◌==◌, ℕ, true, false, ◌≡◌, sym, ap, ◌∙◌, ◌↔◌, [], ◌∷◌, ◌++◌, append_assoc, length, drop,
  drop-length-append,
}
use cv_video_analysis.Common.Texts.{
  text_eq, text_eq_iff, Text, codes, starts_with, starts_with-append, starts_with_colon, pad,
  pad-injective, pad-IsDigit,
}
use cv_video_analysis.Store.Keys.{chunk_key, chunk_key_prefix, chunk_id, lua_chunk_key}

snoc_append : (t s : Text) (c : ℕ) → t ++ (c ∷ s) ≡ (t ++ c ∷ []) ++ s
snoc_append t s c = sym (append_assoc t (c ∷ []) s)

own_prefix : (task s : Text) → starts_with (task ++ b':' ∷ []) (task ++ b':' ∷ s) ≡ true
own_prefix task s = rw (snoc_append task s b':') (starts_with-append (task ++ b':' ∷ []) s)

own_rest : (task s : Text) → drop (length (task ++ b':' ∷ [])) (task ++ b':' ∷ s) ≡ s
own_rest task s = rw (snoc_append task s b':') (drop-length-append (task ++ b':' ∷ []) s)

no_prefix : (task : Text) → starts_with (task ++ b':' ∷ []) [] ≡ false
no_prefix task = starts_with_colon task [] tt

chunk_key_of_id :
    (task : Text) (index : ℕ)
    → chunk_key task (chunk_id task index) ≡ codes "cv:chunk:" ++ task ++ (b':' ∷ pad 8 index)
unfolding chunk_key chunk_id
chunk_key_of_id task index = rw (own_prefix task (pad 8 index), own_rest task (pad 8 index))

chunk_key_of_pad :
    (task : Text) (index : ℕ)
    → chunk_key task (pad 8 index) ≡ codes "cv:chunk:" ++ task ++ (b':' ∷ pad 8 index)
unfolding chunk_key
chunk_key_of_pad task index = rw (starts_with_colon task (pad 8 index) (pad-IsDigit 8 index))

lua_chunk_key_of_prefix :
    (task : Text) (index : ℕ)
    → lua_chunk_key (chunk_key_prefix task) index
      ≡ codes "cv:chunk:" ++ task ++ (b':' ∷ pad 8 index)
unfolding lua_chunk_key chunk_key_prefix
lua_chunk_key_of_prefix task index =
    rw (no_prefix task)
      (ap (λ s. codes "cv:chunk:" ++ s) (append_assoc task (b':' ∷ []) (pad 8 index)))

-- The key of a message's chunk id and the key of the bare eight digit index are the key that the
-- dispatch script builds from the prefix.
pub chunk_key_canonical :
    (task : Text) (index : ℕ)
    → (chunk_key task (chunk_id task index) ≡ lua_chunk_key (chunk_key_prefix task) index)
      × (chunk_key task (pad 8 index) ≡ lua_chunk_key (chunk_key_prefix task) index)
chunk_key_canonical task index = (
  chunk_key_of_id task index ∙ sym (lua_chunk_key_of_prefix task index),
  chunk_key_of_pad task index ∙ sym (lua_chunk_key_of_prefix task index),
)

cancel : (t s s' : Text) → t ++ s ≡ t ++ s' → s ≡ s'
cancel [] s s' e = e
cancel (c ∷ t) s s' e = cancel t s s' (cc)

cons_tail : (c : ℕ) (s s' : Text) → ◌≡◌ {A = Text} (c ∷ s) (c ∷ s') → s ≡ s'
cons_tail c s s' e = cc

-- Within a task, the chunk keys of two indices are equal exactly if the indices are, also above
-- 99999999.
pub chunk_key_injective :
    (task : Text) (i j : ℕ)
    → (lua_chunk_key (chunk_key_prefix task) i ≡ lua_chunk_key (chunk_key_prefix task) j) ↔ (i ≡ j)
chunk_key_injective task i j = (
  λ e. pad-injective 8 i j (
      cons_tail b':' (pad 8 i) (pad 8 j) (
        cancel (codes "cv:chunk:" ++ task) (b':' ∷ pad 8 i) (b':' ∷ pad 8 j)
          (sym (lua_chunk_key_of_prefix task i) ∙ e ∙ lua_chunk_key_of_prefix task j))),
  λ e. rw e,
)

-- The test of two such keys is the test of the indices.
pub chunk_key_eq :
    (task : Text) (i j : ℕ)
    → text_eq (chunk_key task (chunk_id task i)) (chunk_key task (chunk_id task j)) ≡ (i == j)
chunk_key_eq task i j = ground (
  arith,
  text_eq_iff (chunk_key task (chunk_id task i)) (chunk_key task (chunk_id task j)),
  chunk_key_canonical task i,
  chunk_key_canonical task j,
  chunk_key_injective task i j,
)

pub lua_chunk_key_eq :
    (task : Text) (i j : ℕ)
    → text_eq (lua_chunk_key (chunk_key_prefix task) i) (lua_chunk_key (chunk_key_prefix task) j)
      ≡ (i == j)
lua_chunk_key_eq task i j = ground (
  arith,
  text_eq_iff (lua_chunk_key (chunk_key_prefix task) i) (lua_chunk_key (chunk_key_prefix task) j),
  chunk_key_injective task i j,
)
