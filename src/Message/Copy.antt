-- ===== src/Message/Copy.antt =====
-- What the copies of Message.cpp keep: ShallowCopyMessage and ShallowCopyMessageElement, and the elements
-- that CreateMessageElement numbers.
use robotraconteur_pyodide.Prelude.{
  ℕ, ◌≡◌, refl, ap, subst, ◌∙◌, List, [], ◌∷◌, Bool-cases, inl, inr, ◌&&◌, not, All, suc,
}
use robotraconteur_pyodide.Prelude.Int.{ℤ}
use robotraconteur_pyodide.Outcome.{
  Result, ok, throw, undefined, stuck, bind, bind-eq-ok, ok-injective,
}
use robotraconteur_pyodide.Arrays.{Kind, void, scalars, nested, unknown, kind, switch}
use robotraconteur_pyodide.Message.Data.{
  ElementFields, MessageElement, element, ElementData, null, array, nested_list, Elements, nil,
  cons, MessageEntry, Message, type_id, count_elements, has, element_number_flag, element_name_str,
  new_fields,
}
use robotraconteur_pyodide.Message.V2.Size.{
  update_data, update_elements, update_fields, name_from_number, count_and_type_name, update_entry,
  update_entries, compute_size, header_size, update_header,
}
use robotraconteur_pyodide.Message.V2.Invariant.{
  IsElement, of_data, IsData, list_data, IsElements, more_elements,
}
use robotraconteur_pyodide.Message.V2.Frame.{IsEntry}
use robotraconteur_pyodide.Message.Objects.{
  set_data, create_numbered_element, shallow_copy_element, shallow_copy_list, shallow_copy_elements,
  shallow_copy_entry, shallow_copy_entries, shallow_copy_header, shallow_copy_message,
}

bind-two :
    {A B C D : Type 0} (r : Result A) (c : Result B) (g h : B → C) (k : C → Result D)
    → ((b : B) → k (g b) ≡ k (h b))
    → bind (bind r (λ a. bind c (λ b. ok (g b)))) k ≡ bind (bind r (λ a. bind c (λ b. ok (h b)))) k
bind-two (ok a) (ok b) g h k e = e b
bind-two (ok a) (throw x) g h k e = refl
bind-two (ok a) undefined g h k e = refl
bind-two (ok a) stuck g h k e = refl
bind-two (throw x) c g h k e = refl
bind-two undefined c g h k e = refl
bind-two stuck c g h k e = refl

-- UpdateData sets what SetData changes.
update_data-set_data :
    (lexical_cast : ℤ → List ℕ) (f : ElementFields) (d : ElementData)
    → update_data lexical_cast (set_data f d) ≡ update_data lexical_cast (element f d)
unfolding update_data update_fields name_from_number set_data
update_data-set_data lexical_cast f d =
    elim (Bool-cases
      (has f.element_flags element_number_flag && not (has f.element_flags element_name_str))) [
        | inl h ↦ rw h (bind-two _ (count_and_type_name d) _ _ _ (λ p. refl))
        | inr h ↦ rw h (bind-two _ (count_and_type_name d) _ _ _ (λ p. refl))
      ]

update_data-list :
    (lexical_cast : ℤ → List ℕ) (f : ElementFields) (t : ℕ) (name : List ℕ) (es es' : Elements)
    → kind t ≡ nested
    → update_elements lexical_cast es' ≡ update_elements lexical_cast es
    → count_elements es' ≡ count_elements es
    → update_data lexical_cast (element f (nested_list t name es'))
      ≡ update_data lexical_cast (element f (nested_list t name es))
unfolding update_data update_fields count_and_type_name type_id
update_data-list lexical_cast f t name es es' k hu hc = rw (k, hu, hc) refl

copied_data :
    (lexical_cast : ℤ → List ℕ) (f : ElementFields) (d : ElementData) {e' : MessageElement}
    → ok (set_data f d) ≡ ok e'
    → update_data lexical_cast e' ≡ update_data lexical_cast (element f d)
copied_data lexical_cast f d h =
    subst (λ e. update_data lexical_cast e ≡ update_data lexical_cast (element f d))
      (ok-injective h) (update_data-set_data lexical_cast f d)

copied_kind :
    (lexical_cast : ℤ → List ℕ) (k : Kind) (f : ElementFields) (d : ElementData)
    (e' : MessageElement)
    → (shallow_copy_list f d ≡ ok e'
        → update_data lexical_cast e' ≡ update_data lexical_cast (element f d))
    → switch k (ok (set_data f d)) (ok (set_data f d)) (shallow_copy_list f d) (ok (set_data f d))
      ≡ ok e'
    → update_data lexical_cast e' ≡ update_data lexical_cast (element f d)
copied_kind lexical_cast void f d e' list h = copied_data lexical_cast f d h
copied_kind lexical_cast scalars f d e' list h = copied_data lexical_cast f d h
copied_kind lexical_cast nested f d e' list h = list h
copied_kind lexical_cast unknown f d e' list h = copied_data lexical_cast f d h

mutual
  unfolding shallow_copy_element update_data

  copied_element :
      (lexical_cast : ℤ → List ℕ) (e : MessageElement) {e' : MessageElement}
      → IsElement e
      → shallow_copy_element e ≡ ok e'
      → update_data lexical_cast e' ≡ update_data lexical_cast e
  copied_element lexical_cast (element f d) {e'} (of_data v) h =
      copied_kind lexical_cast (kind f.element_type) f d e' (λ k. copied_list lexical_cast f d v k)
        h

  copied_list :
      (lexical_cast : ℤ → List ℕ) (f : ElementFields) (d : ElementData) {e' : MessageElement}
      → IsData d
      → shallow_copy_list f d ≡ ok e'
      → update_data lexical_cast e' ≡ update_data lexical_cast (element f d)
  copied_list lexical_cast f null v h =
      subst (λ e. update_data lexical_cast e ≡ update_data lexical_cast (element f null))
        (ok-injective h) refl
  copied_list lexical_cast f (array a) v h = cc
  copied_list lexical_cast f (nested_list t name es) (list_data k v) h =
      let (es', hes, h1) = bind-eq-ok (shallow_copy_elements es) _ h in
      let (updated, count) = copied_elements lexical_cast es v hes in
      subst
        (λ e.
          update_data lexical_cast e ≡ update_data lexical_cast (element f (nested_list t name es)))
        (ok-injective h1)
        (update_data-set_data lexical_cast f (nested_list t name es')
          ∙ update_data-list lexical_cast f t name es es' k updated count)

  copied_elements :
      (lexical_cast : ℤ → List ℕ) (es : Elements) {es' : Elements}
      → IsElements es
      → shallow_copy_elements es ≡ ok es'
      → (update_elements lexical_cast es' ≡ update_elements lexical_cast es)
        × (count_elements es' ≡ count_elements es)
  copied_elements lexical_cast nil v h =
      subst
        (λ es.
          (update_elements lexical_cast es ≡ update_elements lexical_cast nil)
          × (count_elements es ≡ 0))
        (ok-injective h) (refl, refl)
  copied_elements lexical_cast (cons e es) (more_elements v vs) h =
      let (e', he, h1) = bind-eq-ok (shallow_copy_element e) _ h in
      let (es', hes, h2) = bind-eq-ok (shallow_copy_elements es) _ h1 in
      let one = copied_element lexical_cast e v he in
      let (updated, count) = copied_elements lexical_cast es vs hes in
      subst
        (λ k.
          (update_elements lexical_cast k ≡ update_elements lexical_cast (cons e es))
          × (count_elements k ≡ suc (count_elements es)))
        (ok-injective h2) (rw (one, updated) refl, ap suc count)

-- A copy that ShallowCopyMessageElement makes, of an element that holds what its types say, has, after UpdateData, every field of the original after
-- UpdateData, and UpdateData refuses the one where it refuses the other.
pub update_data-shallow_copy_element :
    (lexical_cast : ℤ → List ℕ) (e e' : MessageElement)
    → IsElement e
    → shallow_copy_element e ≡ ok e'
    → update_data lexical_cast e' ≡ update_data lexical_cast e
update_data-shallow_copy_element lexical_cast e e' v h = copied_element lexical_cast e v h

update_entry-shallow_copy_entry :
    (lexical_cast : ℤ → List ℕ) (e : MessageEntry) {e' : MessageEntry}
    → IsElements e.elements
    → shallow_copy_entry e ≡ ok e'
    → update_entry lexical_cast e' ≡ update_entry lexical_cast e
unfolding shallow_copy_entry update_entry
update_entry-shallow_copy_entry lexical_cast e v h =
    let (es, hes, h1) = bind-eq-ok (shallow_copy_elements e.elements) _ h in
    let (updated, count) = copied_elements lexical_cast e.elements v hes in
    subst (λ k. update_entry lexical_cast k ≡ update_entry lexical_cast e) (ok-injective h1)
      (rw updated refl)

update_entries-shallow_copy_entries :
    (lexical_cast : ℤ → List ℕ) (es : List MessageEntry) {es' : List MessageEntry}
    → All IsEntry es
    → shallow_copy_entries es ≡ ok es'
    → update_entries lexical_cast es' ≡ update_entries lexical_cast es
unfolding shallow_copy_entries update_entries
update_entries-shallow_copy_entries lexical_cast [] v h =
    subst (λ k. update_entries lexical_cast k ≡ update_entries lexical_cast []) (ok-injective h)
      refl
update_entries-shallow_copy_entries lexical_cast (e ∷ es) (v, vs) h =
    let (e', he, h1) = bind-eq-ok (shallow_copy_entry e) _ h in
    let (es', hes, h2) = bind-eq-ok (shallow_copy_entries es) _ h1 in
    subst (λ k. update_entries lexical_cast k ≡ update_entries lexical_cast (e ∷ es))
      (ok-injective h2)
      (rw
        (
          update_entry-shallow_copy_entry lexical_cast e v.elements he,
          update_entries-shallow_copy_entries lexical_cast es vs hes,
        )
        refl)

-- A message with priority 0.
abbrev pub without_priority : Message → Message
without_priority m = record m { header = record m.header { priority = 0 } }

same_size :
    (lexical_cast : ℤ → List ℕ) (m : Message) (es : List MessageEntry)
    → update_entries lexical_cast es ≡ update_entries lexical_cast m.entries
    → compute_size lexical_cast (record { header = shallow_copy_header m.header; entries = es })
      ≡ compute_size lexical_cast (without_priority m)
unfolding compute_size header_size update_header
same_size lexical_cast m es h = rw h refl

-- ComputeSize on a copy that ShallowCopyMessage makes, of a message whose entries hold what their fields
-- and types say, gives what it gives on the original with its
-- priority set to 0: the same size and the same message, or the same exception.
pub compute_size-shallow_copy_message :
    (lexical_cast : ℤ → List ℕ) (m m' : Message)
    → All IsEntry m.entries
    → shallow_copy_message m ≡ ok m'
    → compute_size lexical_cast m' ≡ compute_size lexical_cast (without_priority m)
unfolding shallow_copy_message
compute_size-shallow_copy_message lexical_cast m m' v h =
    let (es, hes, h1) = bind-eq-ok (shallow_copy_entries m.entries) _ h in
    subst (λ k. compute_size lexical_cast k ≡ compute_size lexical_cast (without_priority m))
      (ok-injective h1)
      (same_size lexical_cast m es
        (update_entries-shallow_copy_entries lexical_cast m.entries v hes))

-- The header of a copy that ShallowCopyMessage makes has every field of the original's but Priority,
-- which is 0.
pub shallow_copy_message-priority :
    (m m' : Message) → shallow_copy_message m ≡ ok m' → m'.header ≡ (without_priority m).header
unfolding shallow_copy_message
shallow_copy_message-priority m m' h =
    let (es, hes, h1) = bind-eq-ok (shallow_copy_entries m.entries) _ h in
    subst (λ k. k.header ≡ (without_priority m).header) (ok-injective h1) refl

-- An element that CreateMessageElement numbers is for UpdateData the element of that number with the
-- digits of the number as its name.
pub update_data-create_numbered_element :
    (lexical_cast : ℤ → List ℕ) (number : ℤ) (d : ElementData)
    → update_data lexical_cast (create_numbered_element number d)
      ≡ update_data lexical_cast (
          set_data
            (record new_fields { element_name = lexical_cast number; element_number = number })
            d)
unfolding update_data update_fields name_from_number create_numbered_element set_data
update_data-create_numbered_element lexical_cast number d = refl
