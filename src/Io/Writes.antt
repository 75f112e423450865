-- ===== src/Io/Writes.antt =====
-- What a method of ArrayBinaryWriter writes, and the rules by which such facts about the parts give
-- the fact about the whole.
use robotraconteur_pyodide.Prelude.{
  ℕ, ◌+◌, ◌^◌, ◌≤◌, ◌<◌, ◌≡◌, refl, ap, subst, ◌∙◌, List, [], ◌∷◌, ◌++◌, append-nil, length,
  overwrite, length-append, length-overwrite, overwrite-append, overwrite-nil, le_bytes, arith,
  le→leb, take-append,
}
use robotraconteur_pyodide.Prelude.Words.{length-le_bytes}
use robotraconteur_pyodide.Outcome.{Result, ok, Action, ◌>>=◌, ◌>>◌, return, lift}
use robotraconteur_pyodide.Io.Reader.{size_add}
use robotraconteur_pyodide.Io.Writer.{
  ArrayBinaryWriter, copy_in, write, write_number, write_string8, push_relative_limit, pop_limit,
  distance_from_limit, check_limit, in_limit,
}

abbrev pub writer : List ℕ → ℕ → ℕ → ℕ → List ℕ → ArrayBinaryWriter
writer b p n l ls = record { buffer = b; position = p; len = n; limits = l ∷ ls }

-- Where the limit leaves room for `xs`, `m` writes exactly `xs` and leaves the limits alone.
pub record Writes (m : Action ArrayBinaryWriter (Unit {0})) (xs : List ℕ) : Type 0 where
  pub apply :
      (b : List ℕ) (p n l : ℕ) (ls : List ℕ)
      → p + length xs ≤ l
      → l ≤ length b
      → l < 2 ^ 31
      → m (writer b p n l ls) ≡ ok (tt, writer (overwrite b p xs) (p + length xs) n l ls)

pub Writes-return : Writes (return tt) []
unfolding return
Writes-return = record {
  apply = λ b p n l ls h k s.
      rw (overwrite-nil b p) (ap (λ q. ok (tt, writer b q n l ls)) (omega arith));
}

pub Writes->> :
    {m k : Action ArrayBinaryWriter (Unit {0})} {xs ys : List ℕ}
    → Writes m xs
    → Writes k ys
    → Writes (m >> k) (xs ++ ys)
unfolding ◌>>=◌
Writes->> {m} {k} {xs} {ys} hm hk = record {
  apply = λ b p n l ls h fits small.
      let size : length (xs ++ ys) ≡ length xs + length ys = length-append xs ys in
      let first : m (writer b p n l ls)
          ≡ ok (tt, writer (overwrite b p xs) (p + length xs) n l ls) =
        hm.apply b p n l ls (omega arith) fits small in
      let second : k (writer (overwrite b p xs) (p + length xs) n l ls)
          ≡ ok (
            tt,
            writer (overwrite (overwrite b p xs) (p + length xs) ys) (p + length xs + length ys) n l
                ls,
          ) =
        hk.apply (overwrite b p xs) (p + length xs) n l ls (omega arith)
          (rw (length-overwrite b p xs) fits) small in
      let place : p + length xs + length ys ≡ p + length (xs ++ ys) = omega arith in
      rw first (second ∙ rw (overwrite-append b p xs ys, place) refl);
}

pub Writes-cast :
    {m : Action ArrayBinaryWriter (Unit {0})} {xs ys : List ℕ} → Writes m xs → xs ≡ ys → Writes m ys
Writes-cast {m} h e = subst (Writes m) e h

copy_in-append :
    (xs rest b : List ℕ) (p n l : ℕ) (ls : List ℕ)
    → p + length xs ≤ length b
    → copy_in (xs ++ rest) (length xs) (writer b p n l ls)
      ≡ ok (tt, writer (overwrite b p xs) (p + length xs) n l ls)
unfolding copy_in
copy_in-append xs rest b p n l ls h =
    let enough : length xs ≤ length (xs ++ rest) = omega (arith, length-append xs rest) in
    rw (
      le→leb (p + length xs) (length b) h,
      le→leb (length xs) (length (xs ++ rest)) enough,
      take-append xs rest,
    )

pub Writes-write : (xs : List ℕ) (n : ℕ) → length xs ≡ n → Writes (write xs n) xs
unfolding write
Writes-write xs n size = record {
  apply = λ b p k l ls h fits small.
      let room : size_add p (length xs) ≤ l = omega arith in
      rw (← size, le→leb (size_add p (length xs)) l room)
        (subst
          (λ zs.
            copy_in zs (length xs) (writer b p k l ls)
            ≡ ok (tt, writer (overwrite b p xs) (p + length xs) k l ls))
          (append-nil xs) (copy_in-append xs [] b p k l ls (omega arith)));
}

pub Writes-write_number : (k v : ℕ) → Writes (write_number k v) (le_bytes k v)
unfolding write_number
Writes-write_number k v = Writes-write (le_bytes k v) k (length-le_bytes k v)

pub Writes-write_string8 : (s : List ℕ) → Writes (write_string8 s) s
unfolding write_string8
Writes-write_string8 s = Writes-write s (length s) refl

at_limit :
    (b : List ℕ) (p n q : ℕ) (ls : List ℕ)
    → p ≡ q
    → q < 2 ^ 31
    → check_limit (writer b p n q ls) ≡ ok (tt, writer b p n q ls)
unfolding check_limit distance_from_limit ◌>>=◌ return
at_limit b p n q ls e h = ground arith

-- A section that writes as many bytes as its limit says passes the check at its end.
pub Writes-in_limit :
    {m : Action ArrayBinaryWriter (Unit {0})} {xs : List ℕ} (n : ℕ)
    → Writes m xs
    → length xs ≡ n
    → Writes (in_limit n m) xs
unfolding in_limit push_relative_limit pop_limit ◌>>=◌
Writes-in_limit {m} {xs} n h size = record {
  apply = λ b p k l ls room fits small.
      let inner : size_add p n ≡ p + n = omega arith in
      let test : p + n ≤ l = omega arith in
      let body : m (writer b p k (p + n) (l ∷ ls))
          ≡ ok (tt, writer (overwrite b p xs) (p + length xs) k (p + n) (l ∷ ls)) =
        h.apply b p k (p + n) (l ∷ ls) (omega arith) (omega arith) (omega arith) in
      rw
        (
          inner,
          le→leb (p + n) l test,
          body,
          at_limit (overwrite b p xs) (p + length xs) k (p + n) (l ∷ ls) (omega arith)
              (omega arith),
        )
        refl;
}

-- A step that does not touch the writer.
pub Writes-lift :
    {A : Type 0} {m : Result A} {a : A} (f : A → Action ArrayBinaryWriter (Unit {0})) {xs : List ℕ}
    → m ≡ ok a
    → Writes (f a) xs
    → Writes (lift m >>= f) xs
unfolding ◌>>=◌ lift
Writes-lift {a} f e h = rw e (record { apply = h.apply })
