-- ===== src/Message/V4/Carried.antt =====
-- What Write4 writes for entries whose sizes are set, what Read4 gives back, and the sizes of all
-- entries together.
use robotraconteur_pyodide.Prelude.{
  ℕ, ◌^◌, ◌≤◌, ◌<◌, ◌≡◌, refl, sym, subst, List, [], ◌∷◌, append-nil, length, length-append, All,
  arith,
}
use robotraconteur_pyodide.Prelude.Words.{le_value-le_bytes_one, le_value-le_bytes_two}
use robotraconteur_pyodide.Outcome.{ok, bind-eq-ok, ok-injective}
use robotraconteur_pyodide.Io.Numbers.{
  length-uint_x, Writes-write_uint_x, Reads-read_uint_x, Writes-write_string8_with_x_len,
}
use robotraconteur_pyodide.Io.Writes.{
  Writes, Writes->>, Writes-return, Writes-lift, Writes-write_number, Writes-in_limit,
}
use robotraconteur_pyodide.Io.Reads.{
  Reads, Reads->>=, Reads-return, Reads-cast, Reads-read_number, Reads-in_limit,
}
use robotraconteur_pyodide.Message.Data.{MessageEntry, count_elements, has}
use robotraconteur_pyodide.Message.V2.Wire.{depth_elements}
use robotraconteur_pyodide.Message.V2.Frame.{depth_entries}
use robotraconteur_pyodide.Message.V4.Size.{update_entry4, update_entries4}
use robotraconteur_pyodide.Message.V4.Write.{write_entry4, write_entry_updated4, write_entries4}
use robotraconteur_pyodide.Message.V4.Read.{MaxSizes, read_entry4, read_entry_body4, read_entries4}
use robotraconteur_pyodide.Message.V4.Wire.{
  entry_body_wire4, entry_wire4, entries_wire4, received_entry4, received_entries4,
}
use robotraconteur_pyodide.Message.V4.Frame.{IsEntry4, IsSizedEntry4}
use robotraconteur_pyodide.Message.V4.Parts.{
  Writes-when, Writes-write_extended, Reads-optional, IsRoomy, Reads-read_string_x,
  Reads-read_extended,
}
use robotraconteur_pyodide.Message.V4.Written.{Writes-write_elements4}
use robotraconteur_pyodide.Message.V4.Readback.{Reads-read_elements4}
use robotraconteur_pyodide.Message.V4.Entries.{
  length-entry_wire4, update_entry4-IsSized, update_entry4_kept,
}

Writes-write_entry4 :
    (fuel : ℕ) (e : MessageEntry)
    → IsSizedEntry4 e
    → depth_elements e.elements ≤ fuel
    → Writes (write_entry4 fuel e) (entry_wire4 e)
unfolding write_entry4 write_entry_updated4 entry_wire4
Writes-write_entry4 fuel e v h = Writes-lift _ (update_entry4_kept e v) (
    Writes-in_limit e.entry_size
      (Writes->> (Writes-write_uint_x e.entry_size) (
        Writes->> (Writes-write_number 1 e.entry_flags) (
          Writes->> (Writes-write_number 2 e.entry_type) (
            Writes->>
              (Writes-when (has e.entry_flags 0x01)
                (Writes-write_string8_with_x_len e.service_path))
              (Writes->>
                (Writes-when (has e.entry_flags 0x02) (Writes-write_uint_x e.service_path_code))
                (Writes->>
                  (Writes-when (has e.entry_flags 0x04)
                    (Writes-write_string8_with_x_len e.member_name))
                  (Writes->>
                    (Writes-when (has e.entry_flags 0x08) (Writes-write_uint_x e.member_name_code))
                    (Writes->>
                      (Writes-when (has e.entry_flags 0x10) (Writes-write_uint_x e.request_id))
                      (Writes->>
                        (Writes-when (has e.entry_flags 0x20) (Writes-write_number 2 e.error))
                        (Writes->>
                          (Writes-when (has e.entry_flags 0x40)
                            (Writes-write_string8_with_x_len e.meta_data))
                          (Writes->>
                            (Writes-when (has e.entry_flags 0x80)
                              (Writes-write_extended e.extended))
                            (Writes->> (Writes-write_uint_x (count_elements e.elements))
                              (Writes-write_elements4 fuel v.elements h)))))))))))))
      (sym v.exact))

module _ (c : MaxSizes) (roomy : IsRoomy c) where
  Reads-read_entry_body4 :
      (fuel : ℕ) (e : MessageEntry)
      → IsSizedEntry4 e
      → depth_elements e.elements ≤ fuel
      → Reads (read_entry_body4 c fuel e.entry_size) (entry_body_wire4 e) (received_entry4 e)
  unfolding read_entry_body4 entry_body_wire4 received_entry4
  Reads-read_entry_body4 fuel e v h =
      let f = v.fields in
      Reads-cast
        (Reads->>= _ (Reads-read_number 1 _ (le_value-le_bytes_one _ f.flags)) (
          Reads->>= _ (Reads-read_number 2 _ (le_value-le_bytes_two _ f.type)) (
            Reads->>= _
              (Reads-optional (has e.entry_flags 0x01) _ (Reads-read_string_x c roomy _ f.path))
              (Reads->>= _
                (Reads-optional (has e.entry_flags 0x02) _ (Reads-read_uint_x _ f.path_code))
                (Reads->>= _
                  (Reads-optional (has e.entry_flags 0x04) _ (Reads-read_string_x c roomy _ f.name))
                  (Reads->>= _
                    (Reads-optional (has e.entry_flags 0x08) _ (Reads-read_uint_x _ f.name_code))
                    (Reads->>= _
                      (Reads-optional (has e.entry_flags 0x10) _ (Reads-read_uint_x _ f.request))
                      (Reads->>= _
                        (Reads-optional (has e.entry_flags 0x20) _
                          (Reads-read_number 2 _ (le_value-le_bytes_two _ f.error)))
                        (Reads->>= _
                          (Reads-optional (has e.entry_flags 0x40) _
                            (Reads-read_string_x c roomy _ f.meta))
                          (Reads->>= _
                            (Reads-optional (has e.entry_flags 0x80) _
                              (Reads-read_extended c roomy _ f.extended))
                            (Reads->>= _ (Reads-read_uint_x _ f.count) (
                              Reads->>= _ (Reads-read_elements4 c roomy fuel v.elements h)
                                (Reads-return _)))))))))))))
        (simp append-nil)

  Reads-read_entry4 :
      (fuel : ℕ) (e : MessageEntry)
      → IsSizedEntry4 e
      → depth_elements e.elements ≤ fuel
      → Reads (read_entry4 c fuel) (entry_wire4 e) (received_entry4 e)
  unfolding read_entry4 entry_wire4
  Reads-read_entry4 fuel e v h = Reads->>= _ (Reads-read_uint_x e.entry_size v.fits) (
      Reads-in_limit _ (Reads-read_entry_body4 fuel e v h)
        (omega (arith, v.exact, v.fits, length-entry_wire4 e, length-uint_x e.entry_size)))

  pub Reads-read_entries4 :
      (fuel : ℕ) (es : List MessageEntry)
      → All IsSizedEntry4 es
      → depth_entries es ≤ fuel
      → Reads (read_entries4 c fuel (length es)) (entries_wire4 es) (received_entries4 es)
  unfolding read_entries4 entries_wire4 received_entries4 depth_entries
  Reads-read_entries4 fuel [] v h = Reads-return []
  Reads-read_entries4 fuel (e ∷ es) (v, vs) h =
      Reads-cast
        (Reads->>= _ (Reads-read_entry4 fuel e v (omega arith))
          (Reads->>= _ (Reads-read_entries4 fuel es vs (omega arith)) (Reads-return _)))
        (simp append-nil)

pub Writes-write_entries4 :
    (fuel : ℕ) (es : List MessageEntry)
    → All IsSizedEntry4 es
    → depth_entries es ≤ fuel
    → Writes (write_entries4 fuel es) (entries_wire4 es)
unfolding write_entries4 entries_wire4 depth_entries
Writes-write_entries4 fuel [] v h = Writes-return
Writes-write_entries4 fuel (e ∷ es) (v, vs) h =
    Writes->> (Writes-write_entry4 fuel e v (omega arith))
      (Writes-write_entries4 fuel es vs (omega arith))

-- UpdateData4 over all entries: the sum of their sizes, and the entries with their sizes set.
pub update_entries4-IsSized :
    (es : List MessageEntry) (n : ℕ) {es' : List MessageEntry}
    → All IsEntry4 es
    → update_entries4 es ≡ ok (n, es')
    → length (entries_wire4 es') < 2 ^ 32
    → (n ≡ length (entries_wire4 es')) × All IsSizedEntry4 es'
unfolding update_entries4 entries_wire4
update_entries4-IsSized [] n v h small =
    subst (λ p. (p.0 ≡ length (entries_wire4 p.1)) × All IsSizedEntry4 p.1) (ok-injective h)
      (refl, tt)
update_entries4-IsSized (e ∷ es) n (v, vs) h small =
    let (e', he, h1) = bind-eq-ok (update_entry4 e) _ h in
    let ((m, es'), hes, h2) = bind-eq-ok (update_entries4 es) _ h1 in
    let made = ok-injective h2 in
    let below = subst (λ p. length (entries_wire4 p.1) < 2 ^ 32) (sym made) small in
    let split = length-append (entry_wire4 e') (entries_wire4 es') in
    let one = update_entry4-IsSized e e' v he (omega arith) in
    let (sum, rest) = update_entries4-IsSized es m vs hes (omega arith) in
    let own = one.exact in
    subst (λ p. (p.0 ≡ length (entries_wire4 p.1)) × All IsSizedEntry4 p.1) made
      (omega arith, (one, rest))
