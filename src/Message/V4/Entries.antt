-- ===== src/Message/V4/Entries.antt =====
-- Entries of version 4: the sizes that UpdateData4 sets, what Write4 writes, and what Read4 gives back.
use robotraconteur_pyodide.Prelude.{
  ℕ, ◌+◌, ◌^◌, ◌<◌, ◌≡◌, refl, sym, ap, subst, List, [], ◌∷◌, length, length-append, le_bytes,
  arith,
}
use robotraconteur_pyodide.Prelude.Words.{length-le_bytes}
use robotraconteur_pyodide.Outcome.{ok, bind-eq-ok, ok-injective}
use robotraconteur_pyodide.Io.Reader.{size_add}
use robotraconteur_pyodide.Io.Sizes.{get_size_plus_uint_x}
use robotraconteur_pyodide.Io.Encoding.{uint_x, string_with_x_len}
use robotraconteur_pyodide.Io.Numbers.{get_size_plus_uint_x_lem}
use robotraconteur_pyodide.Message.Data.{MessageEntry, Elements, count_elements, has}
use robotraconteur_pyodide.Message.V4.Flags.{entry_flags4_lem}
use robotraconteur_pyodide.Message.V4.Size.{
  is_nonempty, is_nonzero, sum_sizes, update_elements4, entry_sizes4, flags_of_entry, update_entry4,
}
use robotraconteur_pyodide.Message.V4.Wire.{
  part, extended_wire, elements_wire4, entry_body_wire4, entry_wire4,
}
use robotraconteur_pyodide.Message.V4.Frame.{IsEntryFields4, IsEntry4, IsSizedEntry4}
use robotraconteur_pyodide.Message.V4.Parts.{
  AllMeasure, none, more, total, sum_sizes_lem, Measures-size_if, Measures-string, Measures-ok,
  Measures-uint_x, Measures-extended,
}
use robotraconteur_pyodide.Message.V4.Sized.{elements-IsSized4}
use robotraconteur_pyodide.Message.V4.Fixed.{update_elements4_kept}

-- The sections whose sizes ComputeSize4 adds up.
abbrev entry_parts : MessageEntry → List (List ℕ)
entry_parts e =
    part (has e.entry_flags 0x01) (string_with_x_len e.service_path)
    ∷ part (has e.entry_flags 0x02) (uint_x e.service_path_code)
    ∷ part (has e.entry_flags 0x04) (string_with_x_len e.member_name)
    ∷ part (has e.entry_flags 0x08) (uint_x e.member_name_code)
    ∷ part (has e.entry_flags 0x10) (uint_x e.request_id)
    ∷ part (has e.entry_flags 0x20) (le_bytes 2 e.error)
    ∷ part (has e.entry_flags 0x40) (string_with_x_len e.meta_data)
    ∷ part (has e.entry_flags 0x80) (extended_wire e.extended)
    ∷ uint_x (count_elements e.elements)
    ∷ []

entry_measured :
    (e : MessageEntry) → length e.extended < 2 ^ 30 → AllMeasure (entry_sizes4 e) (entry_parts e)
entry_measured e small = more (Measures-size_if _ _ (Measures-string e.service_path)) (
    more (Measures-size_if _ _ (Measures-uint_x e.service_path_code)) (
      more (Measures-size_if _ _ (Measures-string e.member_name)) (
        more (Measures-size_if _ _ (Measures-uint_x e.member_name_code)) (
          more (Measures-size_if _ _ (Measures-uint_x e.request_id)) (
            more
              (Measures-size_if _ _
                (Measures-ok 2 (le_bytes 2 e.error) (length-le_bytes 2 e.error)))
              (more (Measures-size_if _ _ (Measures-string e.meta_data)) (
                more (Measures-size_if _ _ (Measures-extended e.extended small))
                  (more (Measures-uint_x (count_elements e.elements)) none))))))))

pub length-entry_body_wire4 :
    (e : MessageEntry)
    → length (entry_body_wire4 e) ≡ 3 + length (elements_wire4 e.elements) + total (entry_parts e)
unfolding entry_body_wire4
length-entry_body_wire4 e = simp length-append (omega arith)

pub length-entry_wire4 :
    (e : MessageEntry)
    → length (entry_wire4 e) ≡ length (uint_x e.entry_size) + length (entry_body_wire4 e)
unfolding entry_wire4
length-entry_wire4 e = length-append (uint_x e.entry_size) (entry_body_wire4 e)

entry_body_same :
    (e : MessageEntry) (n : ℕ) → entry_body_wire4 (record e { entry_size = n }) ≡ entry_body_wire4 e
unfolding entry_body_wire4
entry_body_same e n = refl

-- The entry that UpdateData4 makes of `e`, but for its size.
abbrev flagged : MessageEntry → Elements → MessageEntry
flagged e es = record e { entry_flags = flags_of_entry e; elements = es }

flagged-fields :
    (e : MessageEntry) (es : Elements) (n : ℕ)
    → IsEntryFields4 e
    → count_elements es ≡ count_elements e.elements
    → IsEntryFields4 (record (flagged e es) { entry_size = n })
flagged-fields e es n v same =
    let (_, small, _) =
      entry_flags4_lem (is_nonzero e.request_id) (is_nonzero e.error) (is_nonempty e.meta_data)
        (is_nonempty e.extended) e.entry_flags v.flags in
    record {
      flags = small;
      type = v.type;
      path = v.path;
      path_code = v.path_code;
      name = v.name;
      name_code = v.name_code;
      request = v.request;
      error = v.error;
      meta = v.meta;
      extended = v.extended;
      count = rw same v.count;
    }

flags_of_entry_twice :
    (e : MessageEntry) (es : Elements)
    → e.entry_flags < 256
    → flags_of_entry (flagged e es) ≡ flags_of_entry e
flags_of_entry_twice e es h =
    (entry_flags4_lem (is_nonzero e.request_id) (is_nonzero e.error) (is_nonempty e.meta_data)
      (is_nonempty e.extended) e.entry_flags h).0

entry_size_exact :
    (e : MessageEntry) (s size : ℕ)
    → length e.extended < 2 ^ 30
    → length (entry_body_wire4 e) < 2 ^ 32
    → sum_sizes (size_add 3 (length (elements_wire4 e.elements))) (entry_sizes4 e) ≡ ok s
    → get_size_plus_uint_x s ≡ ok size
    → (size ≡ length (uint_x size) + length (entry_body_wire4 e)) × (size < 2 ^ 32)
entry_size_exact e s size short small hs hz =
    let wire = length-entry_body_wire4 e in
    let start : size_add 3 (length (elements_wire4 e.elements))
        ≡ 3 + length (elements_wire4 e.elements) =
      omega arith in
    let sum = sum_sizes_lem _ (entry_measured e short) (omega arith) hs in
    let (whole, fits) = get_size_plus_uint_x_lem _ hz in (omega arith, fits)

-- UpdateData4 sets the size of an entry and of all that is in it.
pub update_entry4-IsSized :
    (e e' : MessageEntry)
    → IsEntry4 e
    → update_entry4 e ≡ ok e'
    → length (entry_wire4 e') < 2 ^ 32
    → IsSizedEntry4 e'
unfolding update_entry4
update_entry4-IsSized e e' v h small =
    let ((n, es), hes, h1) = bind-eq-ok (update_elements4 e.elements) _ h in
    let (s, hs, h2) = bind-eq-ok (sum_sizes (size_add 3 n) (entry_sizes4 (flagged e es))) _ h1 in
    let (size, hz, h3) = bind-eq-ok (get_size_plus_uint_x s) _ h2 in
    let made = ok-injective h3 in
    let g : MessageEntry = flagged e es in
    let whole = subst (λ x. length (entry_wire4 x) < 2 ^ 32) (sym made) small in
    let split = length-entry_wire4 (record g { entry_size = size }) in
    let same_body = ap length (entry_body_same g size) in
    let body = length-entry_body_wire4 g in
    let (wire, all_sized, same) = elements-IsSized4 e.elements n v.elements hes (omega arith) in
    let names = subst (λ k. sum_sizes (size_add 3 k) (entry_sizes4 g) ≡ ok s) wire hs in
    let (exact, fits) = entry_size_exact g s size v.fields.extended (omega arith) names hz in
    subst IsSizedEntry4 made (record {
      fields = flagged-fields e es size v.fields same;
      elements = all_sized;
      normal = flags_of_entry_twice e es v.fields.flags;
      flagged =
          (entry_flags4_lem (is_nonzero e.request_id) (is_nonzero e.error) (is_nonempty e.meta_data)
            (is_nonempty e.extended) e.entry_flags v.fields.flags).2;
      sum = s;
      names = names;
      size = hz;
      exact = omega arith;
      fits = fits;
    })

pub update_entry4_kept : (e : MessageEntry) → IsSizedEntry4 e → update_entry4 e ≡ ok e
unfolding update_entry4
update_entry4_kept e v =
    let small : length (elements_wire4 e.elements) < 2 ^ 32 =
      omega (arith, v.exact, v.fits, length-entry_wire4 e, length-entry_body_wire4 e) in
    rw (update_elements4_kept v.elements small, v.normal, v.names, v.size) refl
