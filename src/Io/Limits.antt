-- ===== src/Io/Limits.antt =====
-- Seek and the limit stack of ArrayBinaryReader: the place and the limits stay within the buffer.
use robotraconteur_pyodide.Prelude.{
  ℕ, ◌≤◌, ◌≡◌, refl, sym, subst, ◌∙◌, Bool, true, false, if◌then◌else◌, length, arith, leb,
}
use robotraconteur_pyodide.Outcome.{
  Exception, buffer_limit_violation, ok, throw, bind, ok-injective,
}
use robotraconteur_pyodide.Io.Reader.{
  ArrayBinaryReader, size_add, back, pop_back, seek, push_relative_limit, push_absolute_limit,
  pop_limit,
}
use robotraconteur_pyodide.Io.Safe.{IsSound, back_limit, limit-le, pushed, pushed-IsSound}

passes :
    {A : Type 0} (b : Bool) {x y : A} (e : Exception)
    → (if b then ok x else throw e) ≡ ok y
    → (b ≡ true) × (x ≡ y)
passes true e h = (refl, ok-injective h)
passes false e h = cc

-- A method that tests a new limit or place `q` against the innermost limit, then gives `a`.
guarded :
    {A : Type 0} (q : ℕ) (r : ArrayBinaryReader) (a x : A)
    → IsSound r
    → bind (back r.limits) (λ l. if leb q l then ok a else throw buffer_limit_violation) ≡ ok x
    → (q ≤ length r.buffer) × (a ≡ x)
guarded q r a x v h =
    let same : bind (back r.limits) (λ l. if leb q l then ok a else throw buffer_limit_violation)
        ≡ (if leb q v.limit then ok a else throw buffer_limit_violation) =
      rw (back_limit r v) refl in
    let (fits, result) = passes (leb q v.limit) buffer_limit_violation (sym same ∙ h) in
    (ground (arith, limit-le r v, fits), result)

sought :
    (p : ℕ) (r : ArrayBinaryReader)
    → IsSound r
    → p ≤ length r.buffer
    → IsSound (record r { position = p })
sought p r v h = record {
  small = v.small;
  placed = h;
  limit = v.limit;
  others = v.others;
  limited = v.limited;
  bounded = v.bounded;
}

-- A Seek that succeeds, by a reader whose place and limits are in its buffer, goes to the position, and
-- the place and the limits are still in the buffer.
pub seek-IsSound :
    (p : ℕ) (r r' : ArrayBinaryReader)
    → IsSound r
    → seek p r ≡ ok (tt, r')
    → IsSound r' × (r'.position ≡ p) × (r'.limits ≡ r.limits)
unfolding seek
seek-IsSound p r r' v h =
    let (fits, same) = guarded p r (tt, record r { position = p }) (tt, r') v h in
    subst (λ x. IsSound x.1 × (x.1.position ≡ p) × (x.1.limits ≡ r.limits)) same
      (sought p r v fits, refl, refl)

-- A PushRelativeLimit that succeeds, by a reader whose place and limits are in its buffer, leaves the
-- place and the limits in the buffer, and PopLimit then gives the reader back as it was.
pub pop_limit-push_relative_limit :
    (n : ℕ) (r r' : ArrayBinaryReader)
    → IsSound r
    → push_relative_limit n r ≡ ok (tt, r')
    → IsSound r' × (pop_limit r' ≡ ok (tt, r))
unfolding push_relative_limit pop_limit pop_back
pop_limit-push_relative_limit n r r' v h =
    let q : ℕ = size_add r.position n in
    let (fits, same) = guarded q r (tt, pushed q r) (tt, r') v h in
    subst (λ x. IsSound x.1 × (pop_limit x.1 ≡ ok (tt, r))) same (pushed-IsSound q r v fits, refl)

-- A PushAbsoluteLimit that succeeds, by a reader whose place and limits are in its buffer, leaves the
-- place and the limits in the buffer, and PopLimit then gives the reader back as it was.
pub pop_limit-push_absolute_limit :
    (n : ℕ) (r r' : ArrayBinaryReader)
    → IsSound r
    → push_absolute_limit n r ≡ ok (tt, r')
    → IsSound r' × (pop_limit r' ≡ ok (tt, r))
unfolding push_absolute_limit pop_limit pop_back
pop_limit-push_absolute_limit n r r' v h =
    let (fits, same) = guarded n r (tt, pushed n r) (tt, r') v h in
    subst (λ x. IsSound x.1 × (pop_limit x.1 ≡ ok (tt, r))) same (pushed-IsSound n r v fits, refl)
