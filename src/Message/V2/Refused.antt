-- ===== src/Message/V2/Refused.antt =====
-- What MessageHeader::Read, and so Message::Read, refuses by the first bytes of the input.
use robotraconteur_pyodide.Prelude.{
  ℕ, ◌+◌, ◌^◌, ◌≤◌, ◌<◌, ◌≡◌, refl, sym, ap, subst, ◌&&◌, true, Bool-cases, inl, inr, append-nil,
  ◌∙◌, false, Bool, List, [], ◌∷◌, ◌++◌, append_assoc, length, length-append, drop, drop-append,
  drop-drop, le_bytes, arith, ◌==◌, if◌then◌else◌,
}
use robotraconteur_pyodide.Prelude.Words.{
  le_value-le_bytes_two, le_value-le_bytes_four, length-le_bytes,
}
use robotraconteur_pyodide.Outcome.{Exception, throw, protocol, Action, ◌>>=◌, return, raise}
use robotraconteur_pyodide.Io.Reader.{ArrayBinaryReader, read_string8}
use robotraconteur_pyodide.Io.Reads.{
  reader, Reads, Reads-return, Reads-read_number, Reads-read_string8,
}
use robotraconteur_pyodide.Message.V2.Write.{rrac}
use robotraconteur_pyodide.Message.V2.Read.{eq_bytes, read_header, read_message}

equal_lem : (a b : ℕ) → (a == b) ≡ true → a ≡ b
equal_lem a b h = ground arith

both_true : (x y : Bool) → (x && y) ≡ true → (x ≡ true) × (y ≡ true)
both_true true y h = (refl, h)
both_true false y h = cc

pub eq_bytes_sound : (xs ys : List ℕ) → eq_bytes xs ys ≡ true → xs ≡ ys
unfolding eq_bytes
eq_bytes_sound [] [] h = refl
eq_bytes_sound [] (y ∷ ys) h = cc
eq_bytes_sound (x ∷ xs) [] h = cc
eq_bytes_sound (x ∷ xs) (y ∷ ys) h =
    let (first, others) = both_true (x == y) (eq_bytes xs ys) h in
    rw (equal_lem x y first, eq_bytes_sound xs ys others) refl

-- Where the input goes on with `xs`, and the limit leaves room for them, `m` throws `e`.
record Refuses {A : Type 0} (m : Action ArrayBinaryReader A) (xs : List ℕ) (e : Exception)
    : Type 0 where
  apply :
      (b : List ℕ) (p n l : ℕ) (ls rest : List ℕ)
      → drop p b ≡ xs ++ rest
      → p + length xs ≤ l
      → l ≤ length b
      → l < 2 ^ 31
      → m (reader b p n l ls) ≡ throw e

Refuses-after :
    {A B : Type 0} {m : Action ArrayBinaryReader A} {xs ys : List ℕ} {a : A} {e : Exception}
    (f : A → Action ArrayBinaryReader B)
    → Reads m xs a
    → Refuses (f a) ys e
    → Refuses (m >>= f) (xs ++ ys) e
unfolding ◌>>=◌
Refuses-after {m} {xs} {ys} {a} {e} f first next = record {
  apply = λ b p n l ls rest here room fits small.
      let size : length (xs ++ ys) ≡ length xs + length ys = length-append xs ys in
      let split : drop p b ≡ xs ++ (ys ++ rest) = here ∙ append_assoc xs ys rest in
      let onward : drop (p + length xs) b ≡ ys ++ rest =
        sym (drop-drop p (length xs) b)
        ∙ ap (drop (length xs)) split
        ∙ drop-append xs (ys ++ rest) in
      rw (first.apply b p n l ls (ys ++ rest) split (omega arith) fits small)
        (next.apply b (p + length xs) n l ls rest onward (omega arith) fits small);
}

Refuses-first :
    {A B : Type 0} {m : Action ArrayBinaryReader A} {xs : List ℕ} {e : Exception}
    (f : A → Action ArrayBinaryReader B)
    → Refuses m xs e
    → Refuses (m >>= f) xs e
unfolding ◌>>=◌
Refuses-first f h = record {
  apply = λ b p n l ls rest here room fits small.
      rw (h.apply b p n l ls rest here room fits small) refl;
}

Refuses-test :
    {B : Type 0} {t : Bool} {e : Exception} (f : Unit {0} → Action ArrayBinaryReader B)
    → t ≡ false
    → Refuses ((if t then return tt else raise e) >>= f) [] e
unfolding ◌>>=◌ raise
Refuses-test f h = record { apply = λ b p n l ls rest here room fits small. rw h refl }

module _ (max_size : ℕ) (roomy : 4 ≤ max_size) where
  Refuses-magic :
      (magic : List ℕ)
      → length magic ≡ 4
      → eq_bytes magic rrac ≡ false
      → Refuses (read_header max_size) (magic ++ []) protocol
  unfolding read_header
  Refuses-magic magic four wrong =
      Refuses-after _
        (subst (λ n. Reads (read_string8 max_size n) magic magic) four
          (Reads-read_string8 max_size magic (omega arith)))
        (Refuses-test _ wrong)

  Refuses-version :
      (size version : ℕ)
      → size < 2 ^ 32
      → version < 2 ^ 16
      → (version == 2) ≡ false
      → Refuses
          (read_header max_size)
          (rrac ++ (le_bytes 4 size ++ (le_bytes 2 version ++ [])))
          protocol
  unfolding read_header eq_bytes
  Refuses-version size version small short other =
      Refuses-after _ (Reads-read_string8 max_size rrac roomy) (
        Refuses-after _ (Reads-return tt) (
          Refuses-after _ (Reads-read_number 4 size (le_value-le_bytes_four size small)) (
            Refuses-after _ (Reads-read_number 2 version (le_value-le_bytes_two version short))
              (Refuses-test _ other))))

  -- Message::Read throws ProtocolException where the first four bytes are not RRAC, and where they are,
  -- and a message size and a version other than 2 follow; the limit, which is in the buffer and below
  -- 2 ^ 31, leaves room for them, and strings of four bytes are possible.
  pub read_message_refuses :
      (fuel : ℕ) (magic : List ℕ) (size version : ℕ) (b : List ℕ) (p n l : ℕ) (ls rest : List ℕ)
      → length magic ≡ 4
      → size < 2 ^ 32
      → version < 2 ^ 16
      → (eq_bytes magic rrac && (version == 2)) ≡ false
      → drop p b ≡ magic ++ (le_bytes 4 size ++ (le_bytes 2 version ++ rest))
      → p + 10 ≤ l
      → l ≤ length b
      → l < 2 ^ 31
      → read_message max_size fuel (reader b p n l ls) ≡ throw protocol
  unfolding read_message
  read_message_refuses fuel magic size version b p n l ls rest four small short wrong here room fits
        low =
      elim (Bool-cases (eq_bytes magic rrac)) [
        | inl same ↦
            (Refuses-first _ (Refuses-version size version small short (other same))).apply b p n l
              ls rest
              (subst (λ k. drop p b ≡ k ++ (le_bytes 4 size ++ (le_bytes 2 version ++ rest)))
                (eq_bytes_sound magic rrac same) here)
              (omega (arith, length-le_bytes 4 size, length-le_bytes 2 version)) fits low
        | inr bad ↦
            (Refuses-first _ (Refuses-magic magic four bad)).apply b p n l ls
              (le_bytes 4 size ++ (le_bytes 2 version ++ rest))
              (subst (λ k. drop p b ≡ k ++ (le_bytes 4 size ++ (le_bytes 2 version ++ rest)))
                (sym (append-nil magic)) here)
              (omega (arith, length-append magic [])) fits low
      ]
    where
      other : eq_bytes magic rrac ≡ true → (version == 2) ≡ false
      other same = subst (λ c. (c && (version == 2)) ≡ false) same wrong
