-- ===== src/Io/Sound.antt =====
-- When the place and the limits of an ArrayBinaryReader are within its buffer, and methods that keep
-- them so on any input: they never move back, the model's fuel suffices for them, and they read past
-- the buffer only where a condition `X` holds, which is ⊥ where they never do.
use robotraconteur_pyodide.Prelude.{
  ℕ, ◌+◌, ◌^◌, ◌≤◌, ◌<◌, ◌≡◌, refl, ap, ◌∙◌, List, ◌∷◌, length, All, arith,
}
use robotraconteur_pyodide.Outcome.{
  Result, ok, throw, undefined, stuck, bind, Action, ◌>>=◌, return, raise, Exception,
}
use robotraconteur_pyodide.Io.Reader.{ArrayBinaryReader, back}

-- The position and every limit lie in the buffer, and there is a limit.
pub record IsSound (r : ArrayBinaryReader) : Type 0 where
  pub small : length r.buffer < 2 ^ 31
  pub placed : r.position ≤ length r.buffer
  pub limit : ℕ
  pub others : List ℕ
  pub limited : r.limits ≡ limit ∷ others
  pub bounded : All (λ l. l ≤ length r.buffer) r.limits

-- A result of a method called on `r`: an exception, or a reader that is sound, at least `k` bytes
-- further on, with the buffer and the limits of `r`; or a read outside the buffer, where `X` holds.
abbrev pub Good :
    {A : Type 0} → Type 0 → ℕ → ArrayBinaryReader → Result (A × ArrayBinaryReader) → Type 0
Good X k r (ok (a, r')) =
    IsSound r' × (r'.buffer ≡ r.buffer) × (r'.limits ≡ r.limits) × (r.position + k ≤ r'.position)
Good X k r (throw e) = Unit {0}
Good X k r undefined = X
Good X k r stuck = ⊥

-- `m` behaves on every sound reader with fewer than `n` bytes left, and takes at least `k` of them.
pub record Behaves {A : Type 0} (X : Type 0) (k n : ℕ) (m : Action ArrayBinaryReader A)
    : Type 0 where
  pub apply :
      (r : ArrayBinaryReader) → IsSound r → length r.buffer < r.position + n → Good X k r (m r)

-- The innermost limit.
pub back_limit : (r : ArrayBinaryReader) (v : IsSound r) → back r.limits ≡ ok v.limit
unfolding back
back_limit r v = ap back v.limited

module _ (X : Type 0) where
  pub Good-trans :
      {B : Type 0} (k j : ℕ) (r r' : ArrayBinaryReader) (y : Result (B × ArrayBinaryReader))
      → (r'.buffer ≡ r.buffer) × (r'.limits ≡ r.limits) × (r.position + k ≤ r'.position)
      → Good X j r' y
      → Good X (k + j) r y
  Good-trans k j r r' (ok (c, q)) (b, l, p) (w, b', l', p') = (w, b' ∙ b, l' ∙ l, omega arith)
  Good-trans k j r r' (throw e) g h = tt
  Good-trans k j r r' undefined g h = h
  Good-trans k j r r' stuck g h = h

  Good-weaken :
      {B : Type 0} (k j : ℕ) (r : ArrayBinaryReader) (y : Result (B × ArrayBinaryReader))
      → j ≤ k
      → Good X k r y
      → Good X j r y
  Good-weaken k j r (ok (c, q)) le (w, b, l, p) = (w, b, l, omega arith)
  Good-weaken k j r (throw e) le h = tt
  Good-weaken k j r undefined le h = h
  Good-weaken k j r stuck le h = h

  Good->>= :
      {A B : Type 0} (k j n n' : ℕ) (r : ArrayBinaryReader) (f : A → Action ArrayBinaryReader B)
      (x : Result (A × ArrayBinaryReader))
      → Good X k r x
      → ((a : A) → Behaves X j n' (f a))
      → length r.buffer < r.position + n
      → n ≤ n' + k
      → Good X (k + j) r (bind x (λ (a, r'). f a r'))
  Good->>= k j n n' r f (ok (a, r')) (v, b, l, p) hf h le =
      Good-trans k j r r' (f a r') (b, l, p) ((hf a).apply r' v (rw b (omega arith)))
  Good->>= k j n n' r f (throw e) g hf h le = tt
  Good->>= k j n n' r f undefined g hf h le = g
  Good->>= k j n n' r f stuck g hf h le = elim g [ ]

module _ {X : Type 0} where
  pub Behaves-return : {A : Type 0} (n : ℕ) (a : A) → Behaves X 0 n (return a)
  unfolding return
  Behaves-return n a = record { apply = λ r v h. (v, refl, refl, omega arith) }

  pub Behaves-raise : {A : Type 0} (k n : ℕ) (e : Exception) → Behaves {A = A} X k n (raise e)
  unfolding raise
  Behaves-raise k n e = record { apply = λ r v h. tt }

  pub Behaves-weaken :
      {A : Type 0} {k n : ℕ} (j : ℕ) {m : Action ArrayBinaryReader A}
      → j ≤ k
      → Behaves X k n m
      → Behaves X j n m
  Behaves-weaken {k} j {m} le h = record {
    apply = λ r v room. Good-weaken X k j r (m r) le (h.apply r v room);
  }

  -- The bytes that the first step takes count for the fuel of the second.
  pub Behaves-both :
      {A B : Type 0} {k j n : ℕ} (n' : ℕ) {m : Action ArrayBinaryReader A}
      {f : A → Action ArrayBinaryReader B}
      → Behaves X k n m
      → ((a : A) → Behaves X j n' (f a))
      → n ≤ n' + k
      → Behaves X (k + j) n (m >>= f)
  unfolding ◌>>=◌
  Behaves-both {k} {j} {n} n' {m} {f} hm hf le = record {
    apply = λ r v h. Good->>= X k j n n' r f (m r) (hm.apply r v h) hf h le;
  }

  pub Behaves->>= :
      {A B : Type 0} {k n : ℕ} (n' : ℕ) {m : Action ArrayBinaryReader A}
      {f : A → Action ArrayBinaryReader B}
      → Behaves X k n m
      → ((a : A) → Behaves X 0 n' (f a))
      → n ≤ n' + k
      → Behaves X 0 n (m >>= f)
  Behaves->>= n' hm hf le = Behaves-weaken 0 (omega arith) (Behaves-both n' hm hf le)
