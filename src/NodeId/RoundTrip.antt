-- ===== src/NodeId/RoundTrip.antt =====
-- What NodeID::ToString prints, NodeID(string) reads back.
use robotraconteur_pyodide.Prelude.{
  ℕ, zero, suc, ◌≤◌, ◌<◌, ◌≡◌, refl, sym, ap, ◌∙◌, Bool, true, false, Bool-cases, List, [], ◌∷◌,
  ◌++◌, append-nil, append_assoc, ◌==◌, length, length-append, drop-drop, take, drop, take-drop,
  length-take, length-drop, All, IsByte, ◌⊎◌, inl, inr, arith,
}
use robotraconteur_pyodide.Outcome.{ok, bind}
use robotraconteur_pyodide.Message.V2.Read.{eq_bytes}
use robotraconteur_pyodide.Message.V2.Refused.{eq_bytes_sound}
use robotraconteur_pyodide.NodeId.Text.{
  contains, is_space, trim_left, cons_unless_space, trim_right, bytes_of, init_from_string,
  without_hyphens, to_string,
}
use robotraconteur_pyodide.NodeId.Digits.{
  hex_text, IsDigit, hex_text-IsDigit, bytes_of-hex_text, length-hex_text, digit_other, char_if,
  Groups, form, match_digits-form,
}

-- Neither a colon nor a space.
abbrev IsPlain : ℕ → Type 0
IsPlain c = ((c == b':') ≡ false) × (is_space c ≡ false)

digit-IsPlain : (c : ℕ) → IsDigit c → IsPlain c
digit-IsPlain c h = (ground arith, ground arith)

module _ (P : ℕ → Type 0) where
  All-append : (xs ys : List ℕ) → All P xs → All P ys → All P (xs ++ ys)
  All-append [] ys h k = k
  All-append (x ∷ xs) ys (h, hs) k = (h, All-append xs ys hs k)

  All-take : (n : ℕ) (xs : List ℕ) → All P xs → All P (take n xs)
  All-take zero xs h = tt
  All-take (suc n) [] h = tt
  All-take (suc n) (x ∷ xs) (h, hs) = (h, All-take n xs hs)

  All-drop : (n : ℕ) (xs : List ℕ) → All P xs → All P (drop n xs)
  All-drop zero xs h = h
  All-drop (suc n) [] h = tt
  All-drop (suc n) (x ∷ xs) (h, hs) = All-drop n xs hs

digits-IsPlain : (xs : List ℕ) → All IsDigit xs → All IsPlain xs
digits-IsPlain [] h = tt
digits-IsPlain (x ∷ xs) (h, hs) = (digit-IsPlain x h, digits-IsPlain xs hs)

char_if-IsPlain : (b : Bool) (c : ℕ) → IsPlain c → All IsPlain (char_if b c)
char_if-IsPlain true c h = (h, tt)
char_if-IsPlain false c h = tt

form-IsPlain :
    (braces hyphens : Bool) (a b c d e : List ℕ)
    → Groups a b c d e
    → All IsPlain (form braces hyphens a b c d e)
form-IsPlain braces hyphens a b c d e v =
    let plain =
      λ (bs : List ℕ) (h : All IsByte bs). digits-IsPlain (hex_text bs) (hex_text-IsDigit bs h) in
    let hyphen = char_if-IsPlain hyphens b'-' (refl, refl) in
    All-append IsPlain _ _ (char_if-IsPlain braces b'{' (refl, refl)) (
      All-append IsPlain _ _ (plain a v.first.1) (
        All-append IsPlain _ _ hyphen (
          All-append IsPlain _ _ (plain b v.second.1) (
            All-append IsPlain _ _ hyphen (
              All-append IsPlain _ _ (plain c v.third.1) (
                All-append IsPlain _ _ hyphen (
                  All-append IsPlain _ _ (plain d v.fourth.1) (
                    All-append IsPlain _ _ hyphen (
                      All-append IsPlain _ _ (plain e v.fifth.1)
                        (char_if-IsPlain braces b'}' (refl, refl)))))))))))

no_colon : (xs : List ℕ) → All IsPlain xs → contains b':' xs ≡ false
unfolding contains
no_colon [] h = refl
no_colon (x ∷ xs) ((h, k), hs) = rw (h, no_colon xs hs) refl

trim_left_plain : (xs : List ℕ) → All IsPlain xs → trim_left xs ≡ xs
unfolding trim_left
trim_left_plain [] h = refl
trim_left_plain (x ∷ xs) ((h, k), hs) = rw k refl

cons_plain : (x : ℕ) (xs : List ℕ) → is_space x ≡ false → cons_unless_space x xs ≡ x ∷ xs
cons_plain x [] h = rw h refl
cons_plain x (y ∷ ys) h = refl

trim_right_plain : (xs : List ℕ) → All IsPlain xs → trim_right xs ≡ xs
unfolding trim_right
trim_right_plain [] h = refl
trim_right_plain (x ∷ xs) ((h, k), hs) = rw (trim_right_plain xs hs) (cons_plain x xs k)

-- A longer text is not the short form of the null NodeID.
not_short : (xs : List ℕ) → 3 < length xs → eq_bytes xs (b'{' ∷ b'0' ∷ b'}' ∷ []) ≡ false
not_short xs h = elim (Bool-cases (eq_bytes xs (b'{' ∷ b'0' ∷ b'}' ∷ []))) [
  | inl same ↦ absurd (omega (arith, ap length (eq_bytes_sound xs (b'{' ∷ b'0' ∷ b'}' ∷ []) same)))
  | inr other ↦ other
]

hex_text-append : (xs ys : List ℕ) → hex_text (xs ++ ys) ≡ hex_text xs ++ hex_text ys
hex_text-append [] ys = refl
hex_text-append (x ∷ xs) ys = rw (hex_text-append xs ys) refl

form-long :
    (braces hyphens : Bool) (a b c d e : List ℕ)
    → Groups a b c d e
    → 3 < length (form braces hyphens a b c d e)
form-long braces hyphens a b c d e v =
    let (size, _) = v.first in simp (length-append, length-hex_text) (omega arith)

init_from_string-form :
    (braces hyphens : Bool) (a b c d e : List ℕ)
    → Groups a b c d e
    → init_from_string (form braces hyphens a b c d e) ≡ ok (a ++ (b ++ (c ++ (d ++ e))))
unfolding init_from_string
init_from_string-form braces hyphens a b c d e v =
    let text : List ℕ = form braces hyphens a b c d e in
    let plain : All IsPlain text = form-IsPlain braces hyphens a b c d e v in
    let trimmed : trim_right (trim_left text) ≡ text =
      ap trim_right (trim_left_plain text plain) ∙ trim_right_plain text plain in
    rw
      (
        no_colon text plain,
        trimmed,
        not_short text (form-long braces hyphens a b c d e v),
        match_digits-form braces hyphens a b c d e v,
      )
      (ap ok (bytes v))
  where
    bytes :
        Groups a b c d e
        → bytes_of (hex_text a ++ (hex_text b ++ (hex_text c ++ (hex_text d ++ hex_text e))))
          ≡ a ++ (b ++ (c ++ (d ++ e)))
    bytes w =
        ap bytes_of (
          sym (
            hex_text-append a (b ++ (c ++ (d ++ e)))
            ∙ ap (◌++◌ (hex_text a)) (
                hex_text-append b (c ++ (d ++ e))
                ∙ ap (◌++◌ (hex_text b))
                    (hex_text-append c (d ++ e) ∙ ap (◌++◌ (hex_text c)) (hex_text-append d e)))))
        ∙ bytes_of-hex_text (a ++ (b ++ (c ++ (d ++ e)))) (
            All-append IsByte a _ w.first.1 (
              All-append IsByte b _ w.second.1
                (All-append IsByte c _ w.third.1 (All-append IsByte d _ w.fourth.1 w.fifth.1))))

-- Boost documents the text of a UUID: two digits in lower case for each byte, in groups of four, two,
-- two, two and six bytes with hyphens between them.
abbrev pub uuid_format : List ℕ → List ℕ
uuid_format id =
    form false true (take 4 id) (take 2 (drop 4 id)) (take 2 (drop 6 id)) (take 2 (drop 8 id))
      (drop 10 id)

pub record IsUuidText (uuid_text : List ℕ → List ℕ) : Type 0 where
  pub prints : (id : List ℕ) → length id ≡ 16 → All IsByte id → uuid_text id ≡ uuid_format id

groups :
    (id : List ℕ)
    → length id ≡ 16
    → All IsByte id
    → Groups (take 4 id) (take 2 (drop 4 id)) (take 2 (drop 6 id)) (take 2 (drop 8 id)) (drop 10 id)
groups id size h =
    let cut = λ (n : ℕ). All-take IsByte 2 (drop n id) (All-drop IsByte n id h) in
    let two = λ (n : ℕ) (k : n ≤ 14). length-take 2 (drop n id) (omega (arith, length-drop n id)) in
    record {
      first = (length-take 4 id (omega arith), All-take IsByte 4 id h);
      second = (two 4 (omega arith), cut 4);
      third = (two 6 (omega arith), cut 6);
      fourth = (two 8 (omega arith), cut 8);
      fifth = (omega (arith, length-drop 10 id), All-drop IsByte 10 id h);
    }

regroup :
    (id : List ℕ)
    → take 4 id
        ++ (take 2 (drop 4 id) ++ (take 2 (drop 6 id) ++ (take 2 (drop 8 id) ++ drop 10 id)))
      ≡ id
regroup id =
    let two = λ (n : ℕ).
      ap (◌++◌ (take 2 (drop n id))) (sym (drop-drop n 2 id)) ∙ take-drop 2 (drop n id) in
    ap (λ t. take 4 id ++ (take 2 (drop 4 id) ++ (take 2 (drop 6 id) ++ t))) (two 8)
    ∙ ap (λ t. take 4 id ++ (take 2 (drop 4 id) ++ t)) (two 6)
    ∙ ap (◌++◌ (take 4 id)) (two 4)
    ∙ take-drop 4 id

braced :
    (a b c d e : List ℕ)
    → b'{' ∷ (form false true a b c d e ++ (b'}' ∷ [])) ≡ form true true a b c d e
braced a b c d e = simp (append_assoc, append-nil)

without_hyphens-append :
    (xs ys : List ℕ) → All IsDigit xs → without_hyphens (xs ++ ys) ≡ xs ++ without_hyphens ys
unfolding without_hyphens
without_hyphens-append [] ys h = refl
without_hyphens-append (x ∷ xs) ys (h, hs) =
    rw (digit_other b'-' x refl h, without_hyphens-append xs ys hs) refl

joined :
    (a b c d e : List ℕ)
    → Groups a b c d e
    → without_hyphens (form false true a b c d e) ≡ form false false a b c d e
unfolding without_hyphens
joined a b c d e v =
    let digits = λ (bs : List ℕ) (h : All IsByte bs). hex_text-IsDigit bs h in
    rw
      (
        without_hyphens-append (hex_text a) _ (digits a v.first.1),
        without_hyphens-append (hex_text b) _ (digits b v.second.1),
        without_hyphens-append (hex_text c) _ (digits c v.third.1),
        without_hyphens-append (hex_text d) _ (digits d v.fourth.1),
        without_hyphens-append (hex_text e) _ (digits e v.fifth.1),
      )
      refl

-- A NodeID of 16 bytes that is printed in one of the formats B, D and N is read back from the text, if
-- lexical_cast prints a UUID as Boost documents it.
pub init_from_string-to_string :
    (uuid_text : List ℕ → List ℕ) (id format : List ℕ)
    → IsUuidText uuid_text
    → length id ≡ 16
    → All IsByte id
    → (format ≡ b'B' ∷ []) ⊎ ((format ≡ b'D' ∷ []) ⊎ (format ≡ b'N' ∷ []))
    → bind (to_string uuid_text format id) init_from_string ≡ ok id
unfolding to_string eq_bytes
init_from_string-to_string uuid_text id format documented size h which =
    let back = λ (braces hyphens : Bool).
      init_from_string-form braces hyphens _ _ _ _ _ (groups id size h) ∙ ap ok (regroup id) in
    elim which [
      | inl e ↦
          rw (e, documented.prints id size h)
            (ap init_from_string (braced _ _ _ _ _) ∙ back true true)
      | inr (inl e) ↦ rw (e, documented.prints id size h) (back false true)
      | inr (inr e) ↦
          rw (e, documented.prints id size h)
            (ap init_from_string (joined _ _ _ _ _ (groups id size h)) ∙ back false false)
    ]
