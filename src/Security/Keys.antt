-- ===== src/Security/Keys.antt =====
-- Which power keys are accepted.
use claw_kernel.Prelude.{
  ℕ, ◌+◌, ◌≤◌, ◌≡◌, ◌≢◌, refl, sym, ap, subst, ◌∙◌, Bool, true, false, ◌||◌, String, if◌then◌else◌,
  ltb, Result, ok, err, ◌↔◌, inl, inr, arith, Bool-cases,
}
use Prim.Native.Char.{Char}
use Prim.Native.String.{[] as end, ◌∷◌ as ◌∷ₛ◌, len}
use claw_kernel.Security.{
  key_too_short, insufficient_complexity, min_key_length, min_char_types, is_ascii_uppercase,
  is_ascii_lowercase, is_ascii_digit, is_special, any_char, as_usize, found_types, validate,
}

pub data CharType : Type 0 where
  uppercase lowercase digit special : CharType

abbrev has_type : CharType → Char → Bool
has_type uppercase c = is_ascii_uppercase c
has_type lowercase c = is_ascii_lowercase c
has_type digit c = is_ascii_digit c
has_type special c = is_special c

pub data Occurs (c : Char) : String → Type 0 where
  here : (d : Char) (s : String) → c ≡ d → Occurs c (d ∷ₛ s)
  later : (d : Char) (s : String) → Occurs c s → Occurs c (d ∷ₛ s)

-- Two characters of the key, of different types.
pub record Mixed (key : String) : Type 0 where
  pub first : Char
  pub second : Char
  pub type_of_first : CharType
  pub type_of_second : CharType
  pub first_occurs : Occurs first key
  pub second_occurs : Occurs second key
  pub is_first : has_type type_of_first first ≡ true
  pub is_second : has_type type_of_second second ≡ true
  pub differ : type_of_first ≢ type_of_second

any_char_iff :
    (p : Char → Bool) (s : String)
    → (any_char p s ≡ true) ↔ ((c : Char) × Occurs c s × (p c ≡ true))
any_char_iff p end = (λ h. absurd (ground arith), λ (c, o, h). elim o [ ])
any_char_iff p (c ∷ₛ s) = elim (Bool-cases (p c)) [
  | inl holds ↦ (λ h. (c, here c s refl, holds), λ h. rw holds)
  | inr fails ↦ (
    λ h.
        let (d, o, e) = (any_char_iff p s).0 (subst (λ b. (b || any_char p s) ≡ true) fails h) in
        (d, later c s o, e),
    λ (d, o, e). by_occurrence fails d e (λ o'. (any_char_iff p s).1 (d, o', e)) o,
  )
]
  where
    by_occurrence :
        p c ≡ false
        → (d : Char) → p d ≡ true
        → (Occurs d s → any_char p s ≡ true)
        → Occurs d (c ∷ₛ s)
        → (p c || any_char p s) ≡ true
    by_occurrence fails d e rest (here c' s' same) =
        absurd (ground (arith, sym e ∙ ap p same ∙ fails))
    by_occurrence fails d e rest (later c' s' o) = rw fails (rest o)

abbrev flag : (a b c d : Bool) → CharType → Bool
flag a b c d uppercase = a
flag a b c d lowercase = b
flag a b c d digit = c
flag a b c d special = d

differ : {x y : CharType} (f : CharType → Bool) → f x ≡ true → f y ≡ false → x ≢ y
differ f hx hy same = absurd (ground (arith, sym hx ∙ ap f same ∙ hy))

abbrev is_type : CharType → CharType → Bool
is_type uppercase uppercase = true
is_type lowercase lowercase = true
is_type digit digit = true
is_type special special = true
is_type x y = false

abbrev TwoTypes : (a b c d : Bool) → Type 0
TwoTypes a b c d =
    (x : CharType) × (y : CharType) × (flag a b c d x ≡ true) × (flag a b c d y ≡ true) × (x ≢ y)

abbrev sum : (a b c d : Bool) → ℕ
sum a b c d = as_usize a + as_usize b + as_usize c + as_usize d

two_types : (a b c d : Bool) → 2 ≤ sum a b c d → TwoTypes a b c d
two_types true true true true h =
    (uppercase, lowercase, refl, refl, differ (is_type uppercase) refl refl)
two_types true true true false h =
    (uppercase, lowercase, refl, refl, differ (is_type uppercase) refl refl)
two_types true true false true h =
    (uppercase, lowercase, refl, refl, differ (is_type uppercase) refl refl)
two_types true true false false h =
    (uppercase, lowercase, refl, refl, differ (is_type uppercase) refl refl)
two_types true false true true h =
    (uppercase, digit, refl, refl, differ (is_type uppercase) refl refl)
two_types true false true false h =
    (uppercase, digit, refl, refl, differ (is_type uppercase) refl refl)
two_types true false false true h =
    (uppercase, special, refl, refl, differ (is_type uppercase) refl refl)
two_types true false false false h = absurd (omega arith)
two_types false true true true h =
    (lowercase, digit, refl, refl, differ (is_type lowercase) refl refl)
two_types false true true false h =
    (lowercase, digit, refl, refl, differ (is_type lowercase) refl refl)
two_types false true false true h =
    (lowercase, special, refl, refl, differ (is_type lowercase) refl refl)
two_types false true false false h = absurd (omega arith)
two_types false false true true h = (digit, special, refl, refl, differ (is_type digit) refl refl)
two_types false false true false h = absurd (omega arith)
two_types false false false true h = absurd (omega arith)
two_types false false false false h = absurd (omega arith)

two_types_sum :
    (a b c d : Bool) (x y : CharType)
    → flag a b c d x ≡ true
    → flag a b c d y ≡ true
    → x ≢ y
    → 2 ≤ sum a b c d
two_types_sum a b c d uppercase uppercase hx hy ne = absurd (ne refl)
two_types_sum a b c d uppercase lowercase hx hy ne = ground (arith, hx, hy)
two_types_sum a b c d uppercase digit hx hy ne = ground (arith, hx, hy)
two_types_sum a b c d uppercase special hx hy ne = ground (arith, hx, hy)
two_types_sum a b c d lowercase uppercase hx hy ne = ground (arith, hx, hy)
two_types_sum a b c d lowercase lowercase hx hy ne = absurd (ne refl)
two_types_sum a b c d lowercase digit hx hy ne = ground (arith, hx, hy)
two_types_sum a b c d lowercase special hx hy ne = ground (arith, hx, hy)
two_types_sum a b c d digit uppercase hx hy ne = ground (arith, hx, hy)
two_types_sum a b c d digit lowercase hx hy ne = ground (arith, hx, hy)
two_types_sum a b c d digit digit hx hy ne = absurd (ne refl)
two_types_sum a b c d digit special hx hy ne = ground (arith, hx, hy)
two_types_sum a b c d special uppercase hx hy ne = ground (arith, hx, hy)
two_types_sum a b c d special lowercase hx hy ne = ground (arith, hx, hy)
two_types_sum a b c d special digit hx hy ne = ground (arith, hx, hy)
two_types_sum a b c d special special hx hy ne = absurd (ne refl)

flag_char :
    (key : String) (x : CharType)
    → flag
        (any_char is_ascii_uppercase key)
        (any_char is_ascii_lowercase key)
        (any_char is_ascii_digit key)
        (any_char is_special key)
        x
      ≡ any_char (has_type x) key
flag_char key uppercase = refl
flag_char key lowercase = refl
flag_char key digit = refl
flag_char key special = refl

found_types-Mixed : (key : String) → (2 ≤ found_types key) ↔ Mixed key
unfolding found_types
found_types-Mixed key = (
  λ h.
      let (x, y, hx, hy, ne) = two_types _ _ _ _ h in
      let (c, oc, tc) = (any_char_iff (has_type x) key).0 (sym (flag_char key x) ∙ hx) in
      let (d, od, td) = (any_char_iff (has_type y) key).0 (sym (flag_char key y) ∙ hy) in
      record {
        first = c;
        second = d;
        type_of_first = x;
        type_of_second = y;
        first_occurs = oc;
        second_occurs = od;
        is_first = tc;
        is_second = td;
        differ = ne;
      },
  λ m.
      two_types_sum _ _ _ _ m.type_of_first m.type_of_second
        (flag_char key m.type_of_first
          ∙ (any_char_iff _ key).1 (m.first, m.first_occurs, m.is_first))
        (flag_char key m.type_of_second
          ∙ (any_char_iff _ key).1 (m.second, m.second_occurs, m.is_second))
        m.differ,
)

abbrev first_error : {E : Type 0} (a b : Bool) (ea eb : E) → Result E (Unit {0})
first_error a b ea eb = if a then err ea else if b then err eb else ok tt

two_tests :
    {E : Type 0} (a b : Bool) (ea eb : E)
    → (first_error a b ea eb ≡ ok tt) ↔ ((a ≡ false) × (b ≡ false))
two_tests true b ea eb = (λ h. absurd (ground arith), λ h. absurd (ground arith))
two_tests false true ea eb = (λ h. absurd (ground arith), λ h. absurd (ground arith))
two_tests false false ea eb = (λ h. (refl, refl), λ h. refl)

not_below : (n m : ℕ) → (ltb n m ≡ false) ↔ (m ≤ n)
not_below n m = (λ h. ground (arith, h), λ h. ground (arith, h))

-- A key is accepted exactly when its UTF-8 has twelve bytes or more and two of its characters are
-- of different types, of upper case, lower case, digits and other ASCII characters.
pub validate-Mixed : (key : String) → (validate key ≡ ok tt) ↔ ((12 ≤ len key) × Mixed key)
unfolding validate
validate-Mixed key =
    let tests =
      two_tests (ltb (len key) min_key_length) (ltb (found_types key) min_char_types)
        (key_too_short (len key) min_key_length)
        (insufficient_complexity (found_types key) min_char_types) in
    (
      λ h.
          let (long, mixed) = tests.0 h in
          (
            (not_below (len key) min_key_length).0 long,
            (found_types-Mixed key).0 ((not_below (found_types key) min_char_types).0 mixed),
          ),
      λ (long, mixed). tests.1 (
        (not_below (len key) min_key_length).1 long,
        (not_below (found_types key) min_char_types).1 ((found_types-Mixed key).1 mixed),
      ),
    )
