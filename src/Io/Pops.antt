-- ===== src/Io/Pops.antt =====
-- Writing that ends by taking back the limit under which it began.
use robotraconteur_pyodide.Prelude.{
  ℕ, ◌+◌, ◌^◌, ◌≤◌, ◌<◌, ◌≡◌, refl, ap, ◌∙◌, List, [], ◌∷◌, ◌++◌, length, overwrite, length-append,
  length-overwrite, overwrite-append, overwrite-nil, arith, le→leb,
}
use robotraconteur_pyodide.Outcome.{Result, ok, Action, ◌>>=◌, ◌>>◌, lift}
use robotraconteur_pyodide.Io.Reader.{size_add}
use robotraconteur_pyodide.Io.Writer.{ArrayBinaryWriter, push_relative_limit, pop_limit}
use robotraconteur_pyodide.Io.Writes.{writer, Writes}

-- Under a limit `q` that leaves room for `xs`, `m` writes exactly `xs` and takes `q` back.
pub record Pops (m : Action ArrayBinaryWriter (Unit {0})) (xs : List ℕ) : Type 0 where
  pub apply :
      (b : List ℕ) (p n q : ℕ) (ls : List ℕ)
      → p + length xs ≤ q
      → q ≤ length b
      → q < 2 ^ 31
      → m (writer b p n q ls)
        ≡ ok (
          tt,
          record { buffer = overwrite b p xs; position = p + length xs; len = n; limits = ls },
        )

pub Pops-pop_limit : Pops pop_limit []
unfolding pop_limit
Pops-pop_limit = record {
  apply = λ b p n q ls h k s.
      rw (overwrite-nil b p) (
        ap (λ z. ok (tt, record { buffer = b; position = z; len = n; limits = ls })) (omega arith));
}

pub Pops->> :
    {m k : Action ArrayBinaryWriter (Unit {0})} {xs ys : List ℕ}
    → Writes m xs
    → Pops k ys
    → Pops (m >> k) (xs ++ ys)
unfolding ◌>>=◌
Pops->> {m} {k} {xs} {ys} hm hk = record {
  apply = λ b p n q ls h fits small.
      let size : length (xs ++ ys) ≡ length xs + length ys = length-append xs ys in
      let place : p + length xs + length ys ≡ p + length (xs ++ ys) = omega arith in
      rw (hm.apply b p n q ls (omega arith) fits small) (
        hk.apply (overwrite b p xs) (p + length xs) n q ls (omega arith)
          (rw (length-overwrite b p xs) fits) small
        ∙ rw (overwrite-append b p xs ys, place) refl);
}

pub Pops-lift :
    {A : Type 0} {m : Result A} {a : A} (f : A → Action ArrayBinaryWriter (Unit {0})) {xs : List ℕ}
    → m ≡ ok a
    → Pops (f a) xs
    → Pops (lift m >>= f) xs
unfolding ◌>>=◌ lift
Pops-lift f e h = rw e (record { apply = h.apply })

pub Writes-push_relative_limit :
    {k : Action ArrayBinaryWriter (Unit {0})} {xs : List ℕ} (n : ℕ)
    → length xs ≡ n
    → Pops k xs
    → Writes (push_relative_limit n >> k) xs
unfolding ◌>>=◌ push_relative_limit
Writes-push_relative_limit {k} {xs} n size h = record {
  apply = λ b p m l ls room fits small.
      let inner : size_add p n ≡ p + n = omega arith in
      let test : p + n ≤ l = omega arith in
      rw (inner, le→leb (p + n) l test)
        (h.apply b p m (p + n) (l ∷ ls) (omega arith) (omega arith) (omega arith));
}
