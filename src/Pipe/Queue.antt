-- ===== src/Pipe/Queue.antt =====
-- The map of early packets: what `find` sees after `insert` and `erase`.
use robotraconteur_pyodide.Prelude.{
  ℕ, ◌≤◌, ◌<◌, ◌≡◌, refl, subst, sym, true, false, List, [], ◌∷◌, Option, none, some, length, All,
  Bool-cases, ap, ◌∙◌, ◌⊎◌, if◌then◌else◌, inl, inr, arith, ◌==◌, ==-refl,
}
use robotraconteur_pyodide.Pipe.Endpoint.{find, insert, erase}

pub ==-eq : (a b : ℕ) → (a == b) ≡ true → a ≡ b
==-eq a b h = ground arith

module _ {ℓ} {A : Type ℓ} where
  -- The map has a packet of the number.
  abbrev pub Held : ℕ → List (ℕ × A) → Type ℓ
  Held k m = (v : A) × (find k m ≡ some v)

  find-hit : (k n : ℕ) (w : A) (m : List (ℕ × A)) → (n == k) ≡ true → find k ((n, w) ∷ m) ≡ some w
  find-hit k n w m h = rw h refl

  find-miss :
      (k n : ℕ) (w : A) (m : List (ℕ × A)) → (n == k) ≡ false → find k ((n, w) ∷ m) ≡ find k m
  find-miss k n w m h = rw h refl

  pub Option-cases : (o : Option A) → (o ≡ none) ⊎ ((v : A) × (o ≡ some v))
  Option-cases none = inl refl
  Option-cases (some v) = inr (v, refl)

  pub All-find :
      (P : ℕ × A → Type ℓ) (k : ℕ) (m : List (ℕ × A)) (v : A)
      → All P m
      → find k m ≡ some v
      → P (k, v)
  All-find P k [] v h e = cc
  All-find P k ((n, w) ∷ m) v h e = elim (Bool-cases (n == k)) [
    | inl same ↦
        let hit : some w ≡ some v = sym (find-hit k n w m same) ∙ e in
        let value : w ≡ v = cc hit in
        subst (λ x. P (x, v)) (==-eq n k same) (subst (λ x. P (n, x)) value h.0)
    | inr other ↦ All-find P k m v h.1 (sym (find-miss k n w m other) ∙ e)
  ]

  pub All-erase : (P : ℕ × A → Type ℓ) (k : ℕ) (m : List (ℕ × A)) → All P m → All P (erase k m)
  unfolding erase
  All-erase P k [] h = h
  All-erase P k ((n, w) ∷ m) h = elim (Bool-cases (n == k)) [
    | inl same ↦ rw same (All-erase P k m h.1)
    | inr other ↦ rw other (h.0, All-erase P k m h.1)
  ]

  length-erase_le : (k : ℕ) (m : List (ℕ × A)) → length (erase k m) ≤ length m
  unfolding erase
  length-erase_le k [] = omega arith
  length-erase_le k ((n, w) ∷ m) = ground (arith, length-erase_le k m)

  pub length-erase :
      (k : ℕ) (m : List (ℕ × A)) (v : A) → find k m ≡ some v → length (erase k m) < length m
  unfolding erase
  length-erase k [] v e = cc
  length-erase k ((n, w) ∷ m) v e = elim (Bool-cases (n == k)) [
    | inl same ↦ rw same (omega (arith, length-erase_le k m))
    | inr other ↦ rw other (omega (arith, length-erase k m v (sym (find-miss k n w m other) ∙ e)))
  ]

  pub find-erase : (k n : ℕ) (m : List (ℕ × A)) → (n == k) ≡ false → find k (erase n m) ≡ find k m
  unfolding erase
  find-erase k n [] h = refl
  find-erase k n ((j, w) ∷ m) h = elim (Bool-cases (j == n)) [
    | inl same ↦
        let passed : (j == k) ≡ false = subst (λ x. (x == k) ≡ false) (sym (==-eq j n same)) h in
        rw same (find-erase k n m h ∙ sym (find-miss k j w m passed))
    | inr other ↦ rw other (ap (λ r. if j == k then some w else r) (find-erase k n m h))
  ]

  insert_new : (k : ℕ) (v : A) (m : List (ℕ × A)) → find k m ≡ none → insert k v m ≡ (k, v) ∷ m
  unfolding insert
  insert_new k v m h = rw (insert, h) refl

  insert_held : (k : ℕ) (v w : A) (m : List (ℕ × A)) → find k m ≡ some w → insert k v m ≡ m
  unfolding insert
  insert_held k v w m h = rw (insert, h) refl

  pub All-insert :
      (P : ℕ × A → Type ℓ) (k : ℕ) (v : A) (m : List (ℕ × A))
      → P (k, v)
      → All P m
      → All P (insert k v m)
  All-insert P k v m p h = elim (Option-cases (find k m)) [
    | inl new ↦ rw (insert_new k v m new) (p, h)
    | inr (w, held) ↦ rw (insert_held k v w m held) h
  ]

  pub find-insert :
      (k n : ℕ) (v : A) (m : List (ℕ × A)) → (n == k) ≡ false → find k (insert n v m) ≡ find k m
  find-insert k n v m h = elim (Option-cases (find n m)) [
    | inl new ↦ rw (insert_new n v m new) (find-miss k n v m h)
    | inr (w, held) ↦ rw (insert_held n v w m held) refl
  ]

  pub Held-insert : (n : ℕ) (v : A) (m : List (ℕ × A)) → Held n (insert n v m)
  Held-insert n v m = elim (Option-cases (find n m)) [
    | inl new ↦ rw (insert_new n v m new) (v, find-hit n n v m (==-refl n))
    | inr (w, held) ↦ rw (insert_held n v w m held) (w, held)
  ]

  pub Held-insert_other : (k n : ℕ) (v : A) (m : List (ℕ × A)) → Held k m → Held k (insert n v m)
  Held-insert_other k n v m (w, held) = elim (Option-cases (find n m)) [
    | inl new ↦ elim (Bool-cases (n == k)) [
      | inl same ↦ rw (insert_new n v m new) (v, find-hit k n v m same)
      | inr other ↦ rw (insert_new n v m new) (w, find-miss k n v m other ∙ held)
    ]
    | inr (u, old) ↦ rw (insert_held n v u m old) (w, held)
  ]

  pub Held-erase : (k n : ℕ) (m : List (ℕ × A)) → (n == k) ≡ false → Held k m → Held k (erase n m)
  Held-erase k n m h (w, held) = (w, find-erase k n m h ∙ held)
