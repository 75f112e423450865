-- ===== src/Message/V2/Entries.antt =====
-- Entries: the sizes that UpdateData sets, what Write writes, and what Read gives back.
use robotraconteur_pyodide.Prelude.{
  ℕ, suc, ◌+◌, ◌-◌, ◌^◌, ◌≤◌, ◌<◌, ◌≡◌, refl, ap, subst, List, [], ◌∷◌, append-nil, length,
  length-append, le_bytes, All, le→ltb, lt→ltb, arith, Bool, true, ◌==◌,
}
use robotraconteur_pyodide.Prelude.Int.{ℤ}
use robotraconteur_pyodide.Prelude.Words.{le_value-le_bytes_two, le_value-le_bytes_four}
use robotraconteur_pyodide.Outcome.{ok, bind-eq-ok, ok-injective, require, protocol}
use robotraconteur_pyodide.Io.Writes.{
  Writes, Writes->>, Writes-return, Writes-lift, Writes-write_number, Writes-in_limit,
}
use robotraconteur_pyodide.Io.Reads.{
  Reads, Reads->>=, Reads-return, Reads-cast, Reads-read_number, Reads-in_limit,
}
use robotraconteur_pyodide.Message.Data.{
  MessageEntry, count_elements, within_uint32, entry_flags_version2_compat, numeric_cast_uint16,
}
use robotraconteur_pyodide.Message.V2.Size.{
  three_strings, update_elements, update_entry, update_entries,
}
use robotraconteur_pyodide.Message.V2.Write.{write_entry, write_entry_updated, write_entries}
use robotraconteur_pyodide.Message.V2.Read.{read_entry, read_entry_body, read_entries}
use robotraconteur_pyodide.Message.V2.Wire.{depth_elements}
use robotraconteur_pyodide.Message.V2.Frame.{
  entry_body_wire, entry_wire, entries_wire, depth_entries, IsEntry, IsSizedEntry, received_entry,
  received_entries,
}
use robotraconteur_pyodide.Message.V2.Update.{
  three_strings_lem, three_strings_fit, update_elements-IsSized, length-string16,
}
use robotraconteur_pyodide.Message.V2.Fixed.{update_elements_kept}
use robotraconteur_pyodide.Message.V2.Written.{Writes-write_string16, Writes-write_elements}
use robotraconteur_pyodide.Message.V2.Readback.{Reads-read_string16, Reads-read_elements}

pub require_lem : (t : Bool) {u : Unit {0}} → require t protocol ≡ ok u → t ≡ true
require_lem t h = ground arith

pub within_uint32_lem : (n : ℕ) {m : ℕ} → within_uint32 n ≡ ok m → (m ≡ n) × (n < 2 ^ 32)
within_uint32_lem n h = ground arith

-- UpdateData sets the size of an entry and of all that is in it.
pub update_entry-IsSized :
    (lexical_cast : ℤ → List ℕ) (e : MessageEntry) {e' : MessageEntry}
    → IsEntry e
    → update_entry lexical_cast e ≡ ok e'
    → IsSizedEntry e'
unfolding update_entry
update_entry-IsSized lexical_cast e v h =
    let (_, hf, h1) =
      bind-eq-ok (require (e.entry_flags == entry_flags_version2_compat) protocol) _ h in
    let ((n, es), hes, h2) = bind-eq-ok (update_elements lexical_cast e.elements) _ h1 in
    let (s, hs, h3) = bind-eq-ok (three_strings e.service_path e.member_name e.meta_data) _ h2 in
    let (size, hz, h4) = bind-eq-ok (within_uint32 (22 + n + s)) _ h3 in
    let (total, all_sized, same) =
      update_elements-IsSized e.elements lexical_cast n v.elements hes in
    let (la, lb, lc, sum) = three_strings_lem _ _ _ hs in
    let (exact, fits) = within_uint32_lem _ hz in
    let flag : (e.entry_flags == entry_flags_version2_compat) ≡ true = require_lem _ hf in
    subst IsSizedEntry (ok-injective h4) (record {
      flags = ground arith;
      path = la;
      name = lb;
      meta = lc;
      type = v.type;
      request = v.request;
      error = v.error;
      count = rw same v.count;
      elements = all_sized;
      size = omega arith;
      fits = omega arith;
    })

pub length-entry_wire : (e : MessageEntry) → IsSizedEntry e → length (entry_wire e) ≡ e.entry_size
unfolding entry_wire
length-entry_wire e v = simp (length-append, length-string16) (omega (arith, v))

pub flag_test : (x : ℕ) {y : ℕ} → x ≡ y → (x == y) ≡ true
flag_test x h = ground arith

pub cast_fits : (n : ℕ) → n < 2 ^ 16 → numeric_cast_uint16 n ≡ ok n
cast_fits n h = rw (lt→ltb n (2 ^ 16) h)

pub update_entry_kept :
    (lexical_cast : ℤ → List ℕ) (e : MessageEntry)
    → IsSizedEntry e
    → update_entry lexical_cast e ≡ ok e
unfolding update_entry
update_entry_kept lexical_cast e v = rw (
  flag_test e.entry_flags v.flags,
  update_elements_kept lexical_cast v.elements,
  three_strings_fit e.service_path e.member_name e.meta_data v.path v.name v.meta,
  ← v.size,
  le→ltb (2 ^ 32 - 1) e.entry_size (omega arith),
)

Writes-write_entry :
    (lexical_cast : ℤ → List ℕ) (fuel : ℕ) (e : MessageEntry)
    → IsSizedEntry e
    → depth_elements e.elements ≤ fuel
    → Writes (write_entry lexical_cast fuel e) (entry_wire e)
unfolding write_entry write_entry_updated entry_wire
Writes-write_entry lexical_cast fuel e v h = Writes-lift _ (update_entry_kept lexical_cast e v) (
    Writes-in_limit e.entry_size
      (Writes->> (Writes-write_number 4 e.entry_size) (
        Writes->> (Writes-write_number 2 e.entry_type) (
          Writes->> (Writes-write_number 2 0) (
            Writes->> (Writes-write_string16 e.service_path v.path) (
              Writes->> (Writes-write_string16 e.member_name v.name) (
                Writes->> (Writes-write_number 4 e.request_id) (
                  Writes->> (Writes-write_number 2 e.error) (
                    Writes->> (Writes-write_string16 e.meta_data v.meta) (
                      Writes-lift _ (cast_fits (count_elements e.elements) v.count) (
                        Writes->> (Writes-write_number 2 _)
                          (Writes-write_elements lexical_cast fuel v.elements h)))))))))))
      (length-entry_wire e v))

module _ (max_size : ℕ) (roomy : 2 ^ 16 ≤ max_size) where
  Reads-read_entry_body :
      (fuel : ℕ) (e : MessageEntry)
      → IsSizedEntry e
      → depth_elements e.elements ≤ fuel
      → Reads (read_entry_body max_size fuel e.entry_size) (entry_body_wire e) (received_entry e)
  unfolding read_entry_body entry_body_wire received_entry
  Reads-read_entry_body fuel e v h =
      Reads-cast
        (Reads->>= _ (Reads-read_number 2 e.entry_type (le_value-le_bytes_two _ v.type)) (
          Reads->>= _ (Reads-read_number 2 0 refl) (
            Reads->>= _ (Reads-read_string16 max_size roomy e.service_path v.path) (
              Reads->>= _ (Reads-read_string16 max_size roomy e.member_name v.name) (
                Reads->>= _ (Reads-read_number 4 e.request_id (le_value-le_bytes_four _ v.request))
                  (Reads->>= _ (Reads-read_number 2 e.error (le_value-le_bytes_two _ v.error)) (
                    Reads->>= _ (Reads-read_string16 max_size roomy e.meta_data v.meta) (
                      Reads->>= _ (Reads-read_number 2 _ (le_value-le_bytes_two _ v.count)) (
                        Reads->>= _ (Reads-read_elements max_size roomy fuel v.elements h)
                          (Reads-return _))))))))))
        (simp append-nil)

  pub Reads-read_entry :
      (fuel : ℕ) (e : MessageEntry)
      → IsSizedEntry e
      → depth_elements e.elements ≤ fuel
      → Reads (read_entry max_size fuel) (entry_wire e) (received_entry e)
  unfolding read_entry entry_wire
  Reads-read_entry fuel e v h =
      Reads->>= _ (Reads-read_number 4 e.entry_size (le_value-le_bytes_four _ v.fits)) (
        Reads-in_limit _ (Reads-read_entry_body fuel e v h) (
          omega (
            arith,
            v,
            length-entry_wire e v,
            length-append (le_bytes 4 e.entry_size) (entry_body_wire e),
          )))

  pub Reads-read_entries :
      (fuel : ℕ) (es : List MessageEntry)
      → All IsSizedEntry es
      → depth_entries es ≤ fuel
      → Reads (read_entries max_size fuel (length es)) (entries_wire es) (received_entries es)
  unfolding read_entries entries_wire received_entries depth_entries
  Reads-read_entries fuel [] v h = Reads-return []
  Reads-read_entries fuel (e ∷ es) (v, vs) h =
      Reads-cast
        (Reads->>= _ (Reads-read_entry fuel e v (omega arith))
          (Reads->>= _ (Reads-read_entries fuel es vs (omega arith)) (Reads-return _)))
        (simp append-nil)

pub Writes-write_entries :
    (lexical_cast : ℤ → List ℕ) (fuel : ℕ) (es : List MessageEntry)
    → All IsSizedEntry es
    → depth_entries es ≤ fuel
    → Writes (write_entries lexical_cast fuel es) (entries_wire es)
unfolding write_entries entries_wire depth_entries
Writes-write_entries lexical_cast fuel [] v h = Writes-return
Writes-write_entries lexical_cast fuel (e ∷ es) (v, vs) h =
    Writes->> (Writes-write_entry lexical_cast fuel e v (omega arith))
      (Writes-write_entries lexical_cast fuel es vs (omega arith))

-- UpdateData over all entries: the sum of their sizes, and the entries with their sizes set.
pub update_entries-IsSized :
    (lexical_cast : ℤ → List ℕ) (es : List MessageEntry) {n : ℕ} {es' : List MessageEntry}
    → All IsEntry es
    → update_entries lexical_cast es ≡ ok (n, es')
    → (n ≡ length (entries_wire es')) × All IsSizedEntry es' × (length es' ≡ length es)
unfolding update_entries entries_wire
update_entries-IsSized lexical_cast [] v h =
    subst (λ p. (p.0 ≡ length (entries_wire p.1)) × All IsSizedEntry p.1 × (length p.1 ≡ 0))
      (ok-injective h) (refl, tt, refl)
update_entries-IsSized lexical_cast (e ∷ es) (v, vs) h =
    let (e', he, h1) = bind-eq-ok (update_entry lexical_cast e) _ h in
    let ((m, es'), hes, h2) = bind-eq-ok (update_entries lexical_cast es) _ h1 in
    let one = update_entry-IsSized lexical_cast e v he in
    let (total, rest, same) = update_entries-IsSized lexical_cast es vs hes in
    subst
      (λ p.
        (p.0 ≡ length (entries_wire p.1)) × All IsSizedEntry p.1 × (length p.1 ≡ length (e ∷ es)))
      (ok-injective h2)
      (
        omega (
          arith,
          total,
          length-entry_wire e' one,
          length-append (entry_wire e') (entries_wire es'),
        ),
        (one, rest),
        ap suc same,
      )
