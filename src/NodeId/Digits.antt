-- ===== src/NodeId/Digits.antt =====
-- The groups of digits of a NodeID: what the regular expression takes from their text.
use mathlib.Core.Option
use robotraconteur_pyodide.Prelude.{
  ℕ, suc, ◌+◌, ◌*◌, ◌/◌, ◌%◌, ◌<◌, ◌≡◌, refl, ap, subst, ◌∙◌, Bool, true, false, List, [], ◌∷◌,
  ◌++◌, Option, some, ltb, ◌==◌, if◌then◌else◌, length, All, IsByte, arith,
}
use robotraconteur_pyodide.NodeId.Text.{
  is_hex, hex_value, take_hex, skip, and_then, match_digits, bytes_of,
}

-- The text of a UUID as Boost documents it: digits in lower case, in groups of 8, 4, 4, 4 and 12.
abbrev pub hex_digit : ℕ → ℕ
hex_digit d = if ltb d 10 then 48 + d else 87 + d

abbrev pub hex_text : List ℕ → List ℕ
hex_text [] = []
hex_text (b ∷ bs) = hex_digit (b / 16) ∷ hex_digit (b % 16) ∷ hex_text bs

-- A character of a digit.
abbrev pub IsDigit : ℕ → Type 0
IsDigit c = is_hex c ≡ true

hex_digit-IsDigit : (d : ℕ) → d < 16 → IsDigit (hex_digit d)
hex_digit-IsDigit d h = ground arith

hex_value-hex_digit :
    (b : ℕ)
    → b < 256
    → (hex_value (hex_digit (b / 16)) * 16 + hex_value (hex_digit (b % 16))) % 256 ≡ b
hex_value-hex_digit b h = ground arith

pub hex_text-IsDigit : (bs : List ℕ) → All IsByte bs → All IsDigit (hex_text bs)
hex_text-IsDigit [] h = tt
hex_text-IsDigit (b ∷ bs) (h, hs) = (
  hex_digit-IsDigit (b / 16) (omega arith),
  (hex_digit-IsDigit (b % 16) (omega arith), hex_text-IsDigit bs hs),
)

pub bytes_of-hex_text : (bs : List ℕ) → All IsByte bs → bytes_of (hex_text bs) ≡ bs
unfolding bytes_of
bytes_of-hex_text [] h = refl
bytes_of-hex_text (b ∷ bs) (h, hs) = rw (hex_value-hex_digit b h, bytes_of-hex_text bs hs) refl

take_hex-append :
    (xs rest : List ℕ) → All IsDigit xs → take_hex (length xs) (xs ++ rest) ≡ some (xs, rest)
unfolding take_hex
take_hex-append [] rest h = refl
take_hex-append (x ∷ xs) rest (h, hs) = rw (h, take_hex-append xs rest hs) refl

pub length-hex_text : (bs : List ℕ) → length (hex_text bs) ≡ 2 * length bs
length-hex_text [] = refl
length-hex_text (b ∷ bs) = omega (arith, length-hex_text bs)

-- A group of digits for `n` bytes.
take_group :
    (n : ℕ) (bs rest : List ℕ)
    → All IsByte bs
    → length bs ≡ n
    → take_hex (2 * n) (hex_text bs ++ rest) ≡ some (hex_text bs, rest)
take_group n bs rest h size =
    subst (λ k. take_hex k (hex_text bs ++ rest) ≡ some (hex_text bs, rest))
      (length-hex_text bs ∙ ap (◌*◌ 2) size)
      (take_hex-append (hex_text bs) rest (hex_text-IsDigit bs h))

skip_there : (c : ℕ) (xs : List ℕ) → skip c (c ∷ xs) ≡ xs
unfolding skip
skip_there c xs = ground arith

-- No digit is one of the other characters that are skipped.
skip_digit : (c x : ℕ) (xs : List ℕ) → (x == c) ≡ false → skip c (x ∷ xs) ≡ x ∷ xs
unfolding skip
skip_digit c x xs h = rw h refl

-- A character that a form of the text has or has not.
abbrev pub char_if : Bool → ℕ → List ℕ
char_if true c = c ∷ []
char_if false c = []

pub digit_other : (c x : ℕ) → is_hex c ≡ false → IsDigit x → (x == c) ≡ false
digit_other c x h k = ground arith

skip-char_if :
    (b : Bool) (c n : ℕ) (bs rest : List ℕ)
    → is_hex c ≡ false
    → All IsByte bs
    → length bs ≡ suc n
    → skip c (char_if b c ++ (hex_text bs ++ rest)) ≡ hex_text bs ++ rest
skip-char_if b c n [] rest h v size = absurd (omega arith)
skip-char_if true c n (x ∷ bs) rest h (k, ks) size = skip_there c _
skip-char_if false c n (x ∷ bs) rest h (k, ks) size =
    skip_digit c (hex_digit (x / 16)) _
      (digit_other c _ h (hex_digit-IsDigit (x / 16) (omega arith)))

skip_end : (b : Bool) → skip b'}' (char_if b b'}') ≡ []
unfolding skip
skip_end true = refl
skip_end false = refl

-- The groups of a NodeID: four, two, two, two and six bytes.
pub record Groups (a b c d e : List ℕ) : Type 0 where
  pub first : (length a ≡ 4) × All IsByte a
  pub second : (length b ≡ 2) × All IsByte b
  pub third : (length c ≡ 2) × All IsByte c
  pub fourth : (length d ≡ 2) × All IsByte d
  pub fifth : (length e ≡ 6) × All IsByte e

-- The text of the groups, with braces or without, and with hyphens or without.
abbrev pub form : Bool → Bool → List ℕ → List ℕ → List ℕ → List ℕ → List ℕ → List ℕ
form braces hyphens a b c d e =
    char_if braces b'{'
    ++ (hex_text a
        ++ (char_if hyphens b'-'
            ++ (hex_text b
                ++ (char_if hyphens b'-'
                    ++ (hex_text c
                        ++ (char_if hyphens b'-'
                            ++ (hex_text d
                                ++ (char_if hyphens b'-'
                                    ++ (hex_text e ++ char_if braces b'}')))))))))

-- One group and the rest.
group_then :
    (b : Bool) (c n : ℕ) (bs rest : List ℕ) (f : List ℕ → Option (List ℕ × List ℕ))
    → is_hex c ≡ false
    → All IsByte bs
    → length bs ≡ suc n
    → and_then (take_hex (2 * suc n) (skip c (char_if b c ++ (hex_text bs ++ rest)))) f
      ≡ Option.map (λ p. (hex_text bs ++ p.0, p.1)) (f rest)
group_then b c n bs rest f h v size =
    rw (skip-char_if b c n bs rest h v size, take_group (suc n) bs rest v size) refl

pub match_digits-form :
    (braces hyphens : Bool) (a b c d e : List ℕ)
    → Groups a b c d e
    → match_digits (form braces hyphens a b c d e)
      ≡ some (hex_text a ++ (hex_text b ++ (hex_text c ++ (hex_text d ++ hex_text e))))
unfolding match_digits
match_digits-form braces hyphens a b c d e v =
    rw
      (
        group_then braces b'{' 3 a _ _ refl v.first.1 v.first.0,
        group_then hyphens b'-' 1 b _ _ refl v.second.1 v.second.0,
        group_then hyphens b'-' 1 c _ _ refl v.third.1 v.third.0,
        group_then hyphens b'-' 1 d _ _ refl v.fourth.1 v.fourth.0,
        skip-char_if hyphens b'-' 5 e (char_if braces b'}') refl v.fifth.1 v.fifth.0,
        take_group 6 e (char_if braces b'}') v.fifth.1 v.fifth.0,
        skip_end braces,
      )
      refl
