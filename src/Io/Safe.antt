-- ===== src/Io/Safe.antt =====
-- The methods of ArrayBinaryReader on any input; they take back the limits that they push.
use robotraconteur_pyodide.Prelude.{
  ℕ, ◌+◌, ◌^◌, ◌≤◌, ◌<◌, ◌≡◌, refl, ap, sym, subst, ◌∷◌, Bool, true, false, Bool-cases, inl, inr,
  length, All, arith, leb, le→leb, lt→leb, ◌⊎◌, if◌then◌else◌,
}
use native.Mathlib.Decide.{dec_le}
use robotraconteur_pyodide.Prelude.{le_value, lt→ltb}
use robotraconteur_pyodide.Prelude.Int.{is_zero_ℤ}
use robotraconteur_pyodide.Outcome.{
  length_error, data_serialization, Result, ok, throw, undefined, stuck, bind, Action, ◌>>=◌, ◌>>◌,
  return, raise, lift, Exception,
}
use robotraconteur_pyodide.Io.Reader.{
  ArrayBinaryReader, size_add, pop_back, copy_out, read, read_number, read_string8,
  push_relative_limit, pop_limit, distance_from_limit, check_limit, in_limit,
}
pub use robotraconteur_pyodide.Io.Sound.{
  IsSound, Good, Behaves, Behaves-return, Behaves-raise, Behaves->>=, Behaves-weaken, back_limit,
}
use robotraconteur_pyodide.Io.Sound.{Good-trans, Behaves-both}

pub limit-le : (r : ArrayBinaryReader) (v : IsSound r) → v.limit ≤ length r.buffer
limit-le r v = (subst (All (λ l. l ≤ length r.buffer)) v.limited v.bounded).0

-- A step that does not touch the reader, and is neither undefined nor out of fuel.
abbrev pub Settles : {A : Type 0} → Result A → Type 0
Settles (ok a) = Unit {0}
Settles (throw e) = Unit {0}
Settles undefined = ⊥
Settles stuck = ⊥

abbrev pub pushed : ℕ → ArrayBinaryReader → ArrayBinaryReader
pushed q r = record r { limits = q ∷ r.limits }

pub pushed-IsSound :
    (q : ℕ) (r : ArrayBinaryReader) → IsSound r → q ≤ length r.buffer → IsSound (pushed q r)
pushed-IsSound q r v h = record {
  small = v.small;
  placed = v.placed;
  limit = q;
  others = r.limits;
  limited = refl;
  bounded = (h, v.bounded);
}

popped-IsSound :
    (r s : ArrayBinaryReader)
    → IsSound r
    → IsSound s
    → s.buffer ≡ r.buffer
    → IsSound (record s { limits = r.limits })
popped-IsSound r s v w e = record {
  small = w.small;
  placed = w.placed;
  limit = v.limit;
  others = v.others;
  limited = v.limited;
  bounded = subst (λ b. All (λ l. l ≤ length b) r.limits) (sym e) v.bounded;
}

module _ (X : Type 0) where
  copy_out-Good :
      (n : ℕ) (r : ArrayBinaryReader)
      → IsSound r
      → r.position + n ≤ length r.buffer
      → Good X n r (copy_out n r)
  unfolding copy_out
  copy_out-Good n r v h = rw (le→leb (r.position + n) (length r.buffer) h) (
    record {
      small = v.small;
      placed = h;
      limit = v.limit;
      others = v.others;
      limited = v.limited;
      bounded = v.bounded;
    },
    refl,
    refl,
    omega arith,
  )

  -- Taking back the limit that was pushed onto `r`.
  copy_out-Any : (n : ℕ) (r : ArrayBinaryReader) → IsSound r → X → Good X n r (copy_out n r)
  unfolding copy_out
  copy_out-Any n r v x = elim (dec_le (r.position + n) (length r.buffer)) [
    | yes h ↦ copy_out-Good n r v h
    | no h ↦ rw (lt→leb (r.position + n) (length r.buffer) (omega arith)) x
  ]

  pop_limit-Good :
      {A : Type 0} (q : ℕ) (r : ArrayBinaryReader) (a : A)
      (y : Result (Unit {0} × ArrayBinaryReader))
      → IsSound r
      → Good X 0 (pushed q r) y
      → Good X 0 r (bind y (λ (u, s). (pop_limit >> return a) s))
  unfolding pop_limit ◌>>=◌ return
  pop_limit-Good q r a (ok (u, s)) v (w, b, l, p) =
      rw (ap pop_back l) (popped-IsSound r s v w b, b, refl, p)
  pop_limit-Good q r a (throw e) v h = tt
  pop_limit-Good q r a undefined v h = h
  pop_limit-Good q r a stuck v h = h

module _ {X : Type 0} where
  pub Behaves-read : (k n : ℕ) → k < 2 ^ 31 → Behaves X k n (read k)
  unfolding read
  Behaves-read k n small = record {
    apply = λ r v h. elim (Bool-cases (leb (size_add r.position k) v.limit)) [
      | inl fits ↦ rw (back_limit r v, fits) (copy_out-Good X k r v (inside r v fits))
      | inr full ↦ rw (back_limit r v, full) tt
    ];
  }
    where
      inside :
          (r : ArrayBinaryReader) (v : IsSound r)
          → leb (size_add r.position k) v.limit ≡ true
          → r.position + k ≤ length r.buffer
      inside r v fits = ground (arith, limit-le r v, v.small, v.placed)

  -- Any number of bytes, where a read outside the buffer is allowed for.
  pub Behaves-read_any : (k n : ℕ) → X → Behaves X k n (read k)
  unfolding read
  Behaves-read_any k n x = record {
    apply = λ r v h. elim (Bool-cases (leb (size_add r.position k) v.limit)) [
      | inl fits ↦ rw (back_limit r v, fits) (copy_out-Any X k r v x)
      | inr full ↦ rw (back_limit r v, full) tt
    ];
  }

  pub Behaves-read_number : (k n : ℕ) → k < 2 ^ 31 → Behaves X k n (read_number k)
  unfolding read_number
  Behaves-read_number k n small =
      Behaves-weaken k (omega arith)
        (Behaves-both n (Behaves-read k n small) (λ a. Behaves-return n (le_value a)) (omega arith))

  pub Behaves-read_string8 :
      (max_size k n : ℕ) → (max_size < 2 ^ 31) ⊎ X → Behaves X 0 n (read_string8 max_size k)
  unfolding read_string8
  Behaves-read_string8 max_size k n small = elim (Bool-cases (leb k max_size)) [
    | inl h ↦ elim small [
      | inl below ↦ rw h (Behaves-weaken 0 (omega arith) (Behaves-read k n (ground arith)))
      | inr x ↦ rw h (Behaves-weaken 0 (omega arith) (Behaves-read_any k n x))
    ]
    | inr h ↦ rw h (Behaves-raise 0 n length_error)
  ]

  pub Behaves-lift : {A : Type 0} (n : ℕ) (m : Result A) → Settles m → Behaves X 0 n (lift m)
  unfolding lift
  Behaves-lift n (ok a) h = record { apply = λ r v room. (v, refl, refl, omega arith) }
  Behaves-lift n (throw e) h = record { apply = λ r v room. tt }
  Behaves-lift n undefined h = elim h [ ]
  Behaves-lift n stuck h = elim h [ ]

  pub Behaves-test :
      (n : ℕ) (t : Bool) (e : Exception) → Behaves X 0 n (if t then return tt else raise e)
  Behaves-test n true e = Behaves-return n tt
  Behaves-test n false e = Behaves-raise 0 n e

  pub Behaves-distance_from_limit : (n : ℕ) → Behaves X 0 n distance_from_limit
  unfolding distance_from_limit
  Behaves-distance_from_limit n = record {
    apply = λ r v h.
        let a : v.limit < 2 ^ 31 = omega (arith, limit-le r v, v.small) in
        let b : r.position < 2 ^ 31 = omega (arith, v.placed, v.small) in
        rw (back_limit r v, lt→ltb v.limit (2 ^ 31) a, lt→ltb r.position (2 ^ 31) b)
          (v, refl, refl, omega arith);
  }

  pub Behaves-check_limit : (n : ℕ) → Behaves X 0 n check_limit
  unfolding check_limit
  Behaves-check_limit n =
      Behaves->>= n (Behaves-distance_from_limit n)
        (λ d. Behaves-test n (is_zero_ℤ d) data_serialization) (omega arith)

module _ (X : Type 0) where
  in_limit-Good :
      {A : Type 0} (q n : ℕ) (r : ArrayBinaryReader) (x : Result (A × ArrayBinaryReader))
      → IsSound r
      → length r.buffer < r.position + n
      → Good X 0 (pushed q r) x
      → Good X 0 r (bind x (λ (a, s). (check_limit >> (pop_limit >> return a)) s))
  unfolding ◌>>=◌
  in_limit-Good q n r (ok (a, s)) v room (w, b, l, p) = pop_limit-Good X q r a (check_limit s) v (
      Good-trans X 0 0 (pushed q r) s (check_limit s) (b, l, p)
        ((Behaves-check_limit n).apply s w (rw b (omega arith))))
  in_limit-Good q n r (throw e) v room h = tt
  in_limit-Good q n r undefined v room h = h
  in_limit-Good q n r stuck v room h = h

module _ {X : Type 0} where
  -- A section under a limit of its own, whatever the limit.
  pub Behaves-in_limit :
      {A : Type 0} (k n : ℕ) {m : Action ArrayBinaryReader A}
      → Behaves X 0 n m
      → Behaves X 0 n (in_limit k m)
  unfolding in_limit push_relative_limit pop_limit ◌>>=◌ return
  Behaves-in_limit k n {m} hm = record {
    apply = λ r v h. elim (Bool-cases (leb (size_add r.position k) v.limit)) [
      | inr full ↦ rw (back_limit r v, full) tt
      | inl fits ↦
          rw (back_limit r v, fits)
            (in_limit-Good X (size_add r.position k) n r (m (pushed (size_add r.position k) r)) v h
              (hm.apply (pushed (size_add r.position k) r) (pushed-IsSound _ r v (inside r v fits))
                h))
    ];
  }
    where
      inside :
          (r : ArrayBinaryReader) (v : IsSound r)
          → leb (size_add r.position k) v.limit ≡ true
          → size_add r.position k ≤ length r.buffer
      inside r v fits = ground (arith, limit-le r v)
