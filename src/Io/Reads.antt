-- ===== src/Io/Reads.antt =====
-- What a method of ArrayBinaryReader does on input that starts with given bytes, and the rules by
-- which such facts about the parts give the fact about the whole.
use robotraconteur_pyodide.Prelude.{
  ℕ, ◌+◌, ◌^◌, ◌≤◌, ◌<◌, ◌≡◌, refl, ap, sym, subst, append-nil, ◌∙◌, List, [], ◌∷◌, ◌++◌,
  append_assoc, length, drop, length-append, drop-append, take-append, drop-drop, le_bytes,
  le_value, arith, le→leb,
}
use robotraconteur_pyodide.Prelude.Words.{length-le_bytes}
use robotraconteur_pyodide.Outcome.{Result, ok, Action, ◌>>=◌, return, lift}
use robotraconteur_pyodide.Io.Reader.{
  ArrayBinaryReader, size_add, copy_out, read, read_number, read_string8, push_relative_limit,
  pop_limit, distance_from_limit, check_limit, in_limit,
}

abbrev pub reader : List ℕ → ℕ → ℕ → ℕ → List ℕ → ArrayBinaryReader
reader b p n l ls = record { buffer = b; position = p; len = n; limits = l ∷ ls }

-- Wherever the input goes on with `xs` and the limit leaves room for them, `m` takes exactly `xs`,
-- gives `a`, and leaves the limits alone.
pub record Reads {A : Type 0} (m : Action ArrayBinaryReader A) (xs : List ℕ) (a : A) : Type 0 where
  pub apply :
      (b : List ℕ) (p n l : ℕ) (ls rest : List ℕ)
      → drop p b ≡ xs ++ rest
      → p + length xs ≤ l
      → l ≤ length b
      → l < 2 ^ 31
      → m (reader b p n l ls) ≡ ok (a, reader b (p + length xs) n l ls)

pub Reads-return : {A : Type 0} (a : A) → Reads (return a) [] a
unfolding return
Reads-return a = record {
  apply = λ b p n l ls rest e h k s. ap (λ q. ok (a, reader b q n l ls)) (omega arith);
}

module _ {A B : Type 0} where
  pub Reads->>= :
      {m : Action ArrayBinaryReader A} {xs ys : List ℕ} {a : A} {c : B}
      (f : A → Action ArrayBinaryReader B)
      → Reads m xs a
      → Reads (f a) ys c
      → Reads (m >>= f) (xs ++ ys) c
  unfolding ◌>>=◌
  Reads->>= {m} {xs} {ys} {a} {c} f hm hf = record {
    apply = λ b p n l ls rest e h k s.
        let size : length (xs ++ ys) ≡ length xs + length ys = length-append xs ys in
        let here : drop p b ≡ xs ++ (ys ++ rest) = e ∙ append_assoc xs ys rest in
        let next : drop (p + length xs) b ≡ ys ++ rest =
          sym (drop-drop p (length xs) b)
          ∙ ap (drop (length xs)) here
          ∙ drop-append xs (ys ++ rest) in
        let first : m (reader b p n l ls) ≡ ok (a, reader b (p + length xs) n l ls) =
          hm.apply b p n l ls (ys ++ rest) here (omega arith) k s in
        let second : f a (reader b (p + length xs) n l ls)
            ≡ ok (c, reader b (p + length xs + length ys) n l ls) =
          hf.apply b (p + length xs) n l ls rest next (omega arith) k s in
        let place : p + length xs + length ys ≡ p + length (xs ++ ys) = omega arith in
        rw first (second ∙ ap (λ q. ok (c, reader b q n l ls)) place);
  }

pub Reads-cast :
    {A : Type 0} {m : Action ArrayBinaryReader A} {xs ys : List ℕ} {a : A}
    → Reads m xs a
    → xs ≡ ys
    → Reads m ys a
Reads-cast {m} {a} h e = subst (λ zs. Reads m zs a) e h

copy_out-append :
    (xs b rest : List ℕ) (p n l : ℕ) (ls : List ℕ)
    → drop p b ≡ xs ++ rest
    → p + length xs ≤ length b
    → copy_out (length xs) (reader b p n l ls) ≡ ok (xs, reader b (p + length xs) n l ls)
unfolding copy_out
copy_out-append xs b rest p n l ls e h =
    rw (le→leb (p + length xs) (length b) h, e, take-append xs rest)

pub Reads-read : (n : ℕ) (xs : List ℕ) → length xs ≡ n → Reads (read n) xs xs
unfolding read
Reads-read n xs size = record {
  apply = λ b p n l ls rest e h k s.
      let fits : size_add p (length xs) ≤ l = omega arith in
      rw (← size, le→leb (size_add p (length xs)) l fits)
        (copy_out-append xs b rest p n l ls e (omega arith));
}

pub Reads-read_number :
    (k : ℕ) (v : ℕ) → le_value (le_bytes k v) ≡ v → Reads (read_number k) (le_bytes k v) v
unfolding read_number
Reads-read_number k v e =
    Reads-cast
      (Reads->>= _ (Reads-read k (le_bytes k v) (length-le_bytes k v))
        (subst (λ w. Reads (return (le_value (le_bytes k v))) [] w) e (Reads-return _)))
      (append-nil (le_bytes k v))

pub Reads-read_string8 :
    (max_size : ℕ) (s : List ℕ) → length s ≤ max_size → Reads (read_string8 max_size (length s)) s s
unfolding read_string8
Reads-read_string8 max_size s h = rw (le→leb (length s) max_size h) (Reads-read (length s) s refl)

at_limit :
    (b : List ℕ) (p n q : ℕ) (ls : List ℕ)
    → p ≡ q
    → q < 2 ^ 31
    → check_limit (reader b p n q ls) ≡ ok (tt, reader b p n q ls)
unfolding check_limit distance_from_limit ◌>>=◌ return
at_limit b p n q ls e h = ground arith

-- A section that takes as many bytes as its limit says passes the check at its end.
pub Reads-in_limit :
    {A : Type 0} {m : Action ArrayBinaryReader A} {xs : List ℕ} {a : A} (n : ℕ)
    → Reads m xs a
    → length xs ≡ n
    → Reads (in_limit n m) xs a
unfolding in_limit push_relative_limit pop_limit ◌>>=◌ return
Reads-in_limit {m} {xs} {a} n h size = record {
  apply = λ b p k l ls rest e room fits small.
      let inner : size_add p n ≡ p + n = omega arith in
      let test : p + n ≤ l = omega arith in
      let body : m (reader b p k (p + n) (l ∷ ls))
          ≡ ok (a, reader b (p + length xs) k (p + n) (l ∷ ls)) =
        h.apply b p k (p + n) (l ∷ ls) rest e (omega arith) (omega arith) (omega arith) in
      rw
        (
          inner,
          le→leb (p + n) l test,
          body,
          at_limit b (p + length xs) k (p + n) (l ∷ ls) (omega arith) (omega arith),
        )
        refl;
}

-- A step that does not touch the reader.
pub Reads-lift :
    {A B : Type 0} {m : Result A} {a : A} (f : A → Action ArrayBinaryReader B) {xs : List ℕ} {c : B}
    → m ≡ ok a
    → Reads (f a) xs c
    → Reads (lift m >>= f) xs c
unfolding ◌>>=◌ lift
Reads-lift {a} f e h = rw e (record { apply = h.apply })

-- A test that passes.
pub Reads-test :
    {A B : Type 0} {a : A} (f : A → Action ArrayBinaryReader B) {xs : List ℕ} {c : B}
    → Reads (f a) xs c
    → Reads (return a >>= f) xs c
Reads-test f h = Reads->>= f (Reads-return _) h
