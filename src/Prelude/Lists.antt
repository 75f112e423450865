-- ===== src/Prelude/Lists.antt =====
-- Lists measured and cut by native numbers.
use Prim.Native.Nat.{ℕ, zero, suc, ◌+◌, ◌-◌, ◌≤◌}
use Prim.Native.Nat.add
use mathlib.Core.Path.{◌≡◌, refl, ap, sym, ◌∙◌}
use mathlib.Core.List.{List, [], ◌∷◌, ◌++◌}
use native.Mathlib.Omega.{arith}

module _ {ℓ} {A : Type ℓ} where
  abbrev pub length : List A → ℕ
  length [] = 0
  length (x ∷ xs) = suc (length xs)

  abbrev pub take : ℕ → List A → List A
  take zero xs = []
  take (suc n) [] = []
  take (suc n) (x ∷ xs) = x ∷ take n xs

  abbrev pub drop : ℕ → List A → List A
  drop zero xs = xs
  drop (suc n) [] = []
  drop (suc n) (x ∷ xs) = drop n xs

  abbrev pub All {κ} : (A → Type κ) → List A → Type κ
  All P [] = Unit {κ}
  All P (x ∷ xs) = P x × All P xs

  -- The list `bs` with `xs` written over it from index `p` on; what would pass its end is lost.
  abbrev pub overwrite : List A → ℕ → List A → List A
  overwrite [] p xs = []
  overwrite (b ∷ bs) zero [] = b ∷ bs
  overwrite (b ∷ bs) zero (x ∷ xs) = x ∷ overwrite bs zero xs
  overwrite (b ∷ bs) (suc p) xs = b ∷ overwrite bs p xs

module _ {ℓ} {A : Type ℓ} where
  pub All_map {κ μ} :
      {P : A → Type κ} {Q : A → Type μ} (xs : List A) → ((x : A) → P x → Q x) → All P xs → All Q xs
  All_map [] h p = tt
  All_map (x ∷ xs) h p = (h x p.0, All_map xs h p.1)

  pub take-drop : (n : ℕ) (xs : List A) → take n xs ++ drop n xs ≡ xs
  take-drop zero xs = refl
  take-drop (suc n) [] = refl
  take-drop (suc n) (x ∷ xs) = ap (◌∷◌ x) (take-drop n xs)

  pub length-append : (xs ys : List A) → length (xs ++ ys) ≡ length xs + length ys
  length-append [] ys = omega arith
  length-append (x ∷ xs) ys = omega (arith, length-append xs ys)

  pub take-append : (xs ys : List A) → take (length xs) (xs ++ ys) ≡ xs
  take-append [] ys = refl
  take-append (x ∷ xs) ys = ap (◌∷◌ x) (take-append xs ys)

  pub drop-append : (xs ys : List A) → drop (length xs) (xs ++ ys) ≡ ys
  drop-append [] ys = refl
  drop-append (x ∷ xs) ys = drop-append xs ys

  drop-nil : (n : ℕ) → drop {A = A} n [] ≡ []
  drop-nil zero = refl
  drop-nil (suc n) = refl

  pub drop-drop : (n m : ℕ) (xs : List A) → drop m (drop n xs) ≡ drop (n + m) xs
  drop-drop zero m xs = ap (λ k. drop k xs) (omega arith)
  drop-drop (suc n) m [] = drop-nil m ∙ sym (drop-nil (suc n + m))
  drop-drop (suc n) m (x ∷ xs) = rw (add.suc n m) (drop-drop n m xs)

  pub length-take : (n : ℕ) (xs : List A) → n ≤ length xs → length (take n xs) ≡ n
  length-take zero xs h = refl
  length-take (suc n) [] h = absurd (omega arith)
  length-take (suc n) (x ∷ xs) h = ap suc (length-take n xs (omega arith))

  pub length-drop : (n : ℕ) (xs : List A) → length (drop n xs) ≡ length xs - n
  length-drop zero xs = omega arith
  length-drop (suc n) [] = omega arith
  length-drop (suc n) (x ∷ xs) = omega (arith, length-drop n xs)

  pub length-overwrite :
      (bs : List A) (p : ℕ) (xs : List A) → length (overwrite bs p xs) ≡ length bs
  length-overwrite [] p xs = refl
  length-overwrite (b ∷ bs) zero [] = refl
  length-overwrite (b ∷ bs) zero (x ∷ xs) = ap suc (length-overwrite bs zero xs)
  length-overwrite (b ∷ bs) (suc p) xs = ap suc (length-overwrite bs p xs)

  pub overwrite-nil : (bs : List A) (p : ℕ) → overwrite bs p [] ≡ bs
  overwrite-nil [] p = refl
  overwrite-nil (b ∷ bs) zero = refl
  overwrite-nil (b ∷ bs) (suc p) = ap (◌∷◌ b) (overwrite-nil bs p)

  -- Two writes, the second where the first ends, are one write.
  pub overwrite-append :
      (bs : List A) (p : ℕ) (xs ys : List A)
      → overwrite (overwrite bs p xs) (p + length xs) ys ≡ overwrite bs p (xs ++ ys)
  overwrite-append [] p xs ys = refl
  overwrite-append (b ∷ bs) zero [] ys = ground arith
  overwrite-append (b ∷ bs) zero (x ∷ xs) ys = ground (arith, overwrite-append bs zero xs ys)
  overwrite-append (b ∷ bs) (suc p) xs ys = ground (arith, overwrite-append bs p xs ys)

  pub drop-overwrite :
      (bs : List A) (p : ℕ) (xs : List A)
      → p + length xs ≤ length bs
      → drop p (overwrite bs p xs) ≡ xs ++ drop (p + length xs) bs
  drop-overwrite [] zero [] h = refl
  drop-overwrite [] zero (x ∷ xs) h = absurd (omega arith)
  drop-overwrite [] (suc p) xs h = absurd (omega arith)
  drop-overwrite (b ∷ bs) zero [] h = ground arith
  drop-overwrite (b ∷ bs) zero (x ∷ xs) h = ground (arith, drop-overwrite bs zero xs (omega arith))
  drop-overwrite (b ∷ bs) (suc p) xs h =
      rw (add.suc p (length xs)) (drop-overwrite bs p xs (omega arith))
