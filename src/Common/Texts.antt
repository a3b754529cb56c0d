-- ===== src/Common/Texts.antt =====
-- Python's and Lua's texts as lists of code points: equality, prefixes, and zero-padded decimals.
use Prim.Native.Nat.{ℕ, zero, suc, ◌+◌, ◌-◌, ◌*◌, ◌/◌, ◌%◌, ◌≤◌}
use Prim.Native.Char.{code}
use Prim.Native.String.{String}
use mathlib.Core.Path.{◌≡◌, refl, ap, sym, ◌∙◌}
use mathlib.Core.Logic.{◌↔◌, inl, inr}
use mathlib.Core.Bool.{Bool, true, false, ◌&&◌}
use mathlib.Core.List.{List, [], ◌∷◌, ◌++◌}
use native.Mathlib.Omega.{arith}
use mathlib.Core.Option.{Option, none, some}
use cv_video_analysis.Common.Tests.{leb, ◌==◌, if◌then◌else◌, Bool-cases}
use cv_video_analysis.Common.Lists.{All, All-append}

abbrev pub Text : Type 0
Text = List ℕ

-- A literal of the source.
abbrev pub codes : String → Text
codes String.[] = []
codes (String.◌∷◌ c s) = code c ∷ codes s

unfoldable pub text_eq : Text → Text → Bool
text_eq [] [] = true
text_eq [] (d ∷ t) = false
text_eq (c ∷ s) [] = false
text_eq (c ∷ s) (d ∷ t) = (c == d) && text_eq s t

pub text_eq_sound : (s t : Text) → text_eq s t ≡ true → s ≡ t
unfolding text_eq
text_eq_sound [] [] h = refl
text_eq_sound [] (d ∷ t) h = cc
text_eq_sound (c ∷ s) [] h = cc
text_eq_sound (c ∷ s) (d ∷ t) h = ground (arith, text_eq_sound s t)

pub text_eq_refl : (s : Text) → text_eq s s ≡ true
unfolding text_eq
text_eq_refl [] = refl
text_eq_refl (c ∷ s) = ground (arith, text_eq_refl s)

pub text_eq_iff : (s t : Text) → (text_eq s t ≡ true) ↔ (s ≡ t)
text_eq_iff s t = (text_eq_sound s t, λ e. rw e (text_eq_refl t))

-- `text.startswith(prefix)`
unfoldable pub starts_with : Text → Text → Bool
starts_with [] s = true
starts_with (c ∷ p) [] = false
starts_with (c ∷ p) (d ∷ s) = (c == d) && starts_with p s

pub starts_with-append : (p s : Text) → starts_with p (p ++ s) ≡ true
unfolding starts_with
starts_with-append [] s = refl
starts_with-append (c ∷ p) s = ground (arith, starts_with-append p s)

-- `f"{n:0{w}d}"` and `string.format`: decimal digits, with zeros in front up to the width `w`.
-- The fuel `w + n` is enough: a round lowers the width left or the number left.
unfoldable pub pad_digits : ℕ → ℕ → ℕ → Text
pad_digits zero w n = []
pad_digits (suc fuel) w n =
    let longer = pad_digits fuel (w - 1) (n / 10) ++ (b'0' + n % 10) ∷ [] in
    if (w == 0) && (n == 0) then [] else longer

unfoldable pub pad : ℕ → ℕ → Text
unfolding pad_digits
pad w n = pad_digits (w + n) w n

abbrev value_from : ℕ → Text → ℕ
value_from acc [] = acc
value_from acc (c ∷ s) = value_from (acc * 10 + (c - b'0')) s

value_from-snoc :
    (acc : ℕ) (s : Text) (c : ℕ) → value_from acc (s ++ c ∷ []) ≡ value_from acc s * 10 + (c - b'0')
value_from-snoc acc [] c = refl
value_from-snoc acc (d ∷ s) c = value_from-snoc (acc * 10 + (d - b'0')) s c

value-pad_digits : (fuel w n : ℕ) → w + n ≤ fuel → value_from 0 (pad_digits fuel w n) ≡ n
unfolding pad_digits
value-pad_digits zero w n h = omega arith
value-pad_digits (suc fuel) w n h = elim (Bool-cases ((w == 0) && (n == 0))) [
  | inl done ↦ rw done (ground arith)
  | inr more ↦ rw more (
      rw value_from-snoc (rw (value-pad_digits fuel (w - 1) (n / 10) (ground arith)) (omega arith)))
]

-- Two numbers that print alike are one.
pub pad-injective : (w m n : ℕ) → pad w m ≡ pad w n → m ≡ n
unfolding pad
pad-injective w m n e =
    sym (value-pad_digits (w + m) w m (omega arith))
    ∙ ap (value_from 0) e
    ∙ value-pad_digits (w + n) w n (omega arith)

abbrev pub IsDigit : ℕ → Type 0
IsDigit c = (b'0' ≤ c) × (c ≤ b'9')

pad_digits-IsDigit : (fuel w n : ℕ) → All IsDigit (pad_digits fuel w n)
unfolding pad_digits
pad_digits-IsDigit zero w n = tt
pad_digits-IsDigit (suc fuel) w n = elim (Bool-cases ((w == 0) && (n == 0))) [
  | inl done ↦ rw done tt
  | inr more ↦ rw more (
      All-append IsDigit (pad_digits fuel (w - 1) (n / 10)) ((b'0' + n % 10) ∷ [])
        (pad_digits-IsDigit fuel (w - 1) (n / 10)) (omega arith))
]

pub pad-IsDigit : (w n : ℕ) → All IsDigit (pad w n)
unfolding pad
pad-IsDigit w n = pad_digits-IsDigit (w + n) w n

-- A text of digits starts with nothing that holds a colon.
pub starts_with_colon : (p s : Text) → All IsDigit s → starts_with (p ++ b':' ∷ []) s ≡ false
unfolding starts_with
starts_with_colon [] [] h = refl
starts_with_colon [] (d ∷ s) h = ground arith
starts_with_colon (c ∷ p) [] h = refl
starts_with_colon (c ∷ p) (d ∷ s) h = ground (arith, starts_with_colon p s)

-- `text.rsplit(":", 1)[1]`: what follows the last colon, if there is one.
unfoldable pub last_after : Option Text → ℕ → Text → Option Text
last_after none c s = if c == b':' then some s else none
last_after (some t) c s = some t

unfoldable pub after_last_colon : Text → Option Text
unfolding last_after
after_last_colon [] = none
after_last_colon (c ∷ s) = last_after (after_last_colon s) c s

-- `int(text)` of a text of digits; any other text is refused.
unfoldable pub digits_from : ℕ → Text → Option ℕ
digits_from acc [] = some acc
digits_from acc (c ∷ s) =
    let rest = digits_from (acc * 10 + (c - b'0')) s in
    if leb b'0' c && leb c b'9' then rest else none

unfoldable pub parse_int : Text → Option ℕ
unfolding digits_from
parse_int [] = none
parse_int (c ∷ s) = digits_from 0 (c ∷ s)

digits_from-IsDigit :
    (acc : ℕ) (s : Text) → All IsDigit s → digits_from acc s ≡ some (value_from acc s)
unfolding digits_from
digits_from-IsDigit acc [] h = refl
digits_from-IsDigit acc (c ∷ s) (d, h) =
    ground (arith, digits_from-IsDigit (acc * 10 + (c - b'0')) s h)

no_colon : (s : Text) → All IsDigit s → after_last_colon s ≡ none
unfolding after_last_colon
no_colon [] h = refl
no_colon (c ∷ s) (d, h) = rw (no_colon s h) (ground arith)

after_last_colon_digits : (p s : Text) → All IsDigit s → after_last_colon (p ++ (b':' ∷ s)) ≡ some s
unfolding after_last_colon
after_last_colon_digits [] s h = rw (no_colon s h) refl
after_last_colon_digits (c ∷ p) s h = rw (after_last_colon_digits p s h) refl

parse_int-snoc : (p : Text) (c : ℕ) → parse_int (p ++ c ∷ []) ≡ digits_from 0 (p ++ c ∷ [])
unfolding parse_int
parse_int-snoc [] c = refl
parse_int-snoc (d ∷ p) c = refl

parse_int-pad_digits :
    (fuel n : ℕ) → parse_int (pad_digits (suc fuel) 1 n) ≡ digits_from 0 (pad_digits (suc fuel) 1 n)
unfolding pad_digits
parse_int-pad_digits fuel n = parse_int-snoc (pad_digits fuel (1 - 1) (n / 10)) (b'0' + n % 10)

pub parse_int-pad : (n : ℕ) → parse_int (pad 1 n) ≡ some n
unfolding pad
parse_int-pad n =
    let fuel : 1 + n ≡ suc n = omega arith in
    rw fuel (
      parse_int-pad_digits n n
      ∙ digits_from-IsDigit 0 (pad_digits (suc n) 1 n) (pad_digits-IsDigit (suc n) 1 n)
      ∙ ap some (value-pad_digits (suc n) 1 n (omega arith)))

-- The number after the last colon is read back.
pub last_number-pad : (p : Text) (n : ℕ) → after_last_colon (p ++ (b':' ∷ pad 1 n)) ≡ some (pad 1 n)
last_number-pad p n = after_last_colon_digits p (pad 1 n) (pad-IsDigit 1 n)
