-- ===== src/Message/Lookup.antt =====
-- FindElement, ContainsElement and AddElement of Message.cpp together.
use robotraconteur_pyodide.Prelude.{
  ℕ, if◌then◌else◌, ◌≡◌, ◌⊎◌, refl, Bool, true, false, List, [], ◌∷◌, Bool-cases, inl, inr, ==-refl,
}
use robotraconteur_pyodide.Outcome.{ok, throw, message_element_not_found}
use robotraconteur_pyodide.Message.Data.{
  MessageElement, ElementData, Elements, nil, cons, MessageEntry, fields_of,
}
use robotraconteur_pyodide.Message.V2.Read.{eq_bytes}
use robotraconteur_pyodide.Message.Objects.{
  set_data, create_message_element, push_back, add_element, find_element, contains_element,
}

eq_bytes_refl : (s : List ℕ) → eq_bytes s s ≡ true
unfolding eq_bytes
eq_bytes_refl [] = refl
eq_bytes_refl (x ∷ xs) = rw (==-refl x, eq_bytes_refl xs) refl

if-true : (b x y : Bool) {v : Bool} → b ≡ true → (if b then x else y) ≡ v → x ≡ v
if-true true x y e h = h
if-true false x y e h = cc

if-false : (b x y : Bool) {v : Bool} → b ≡ false → (if b then x else y) ≡ v → y ≡ v
if-false true x y e h = cc
if-false false x y e h = h

-- What a search for a name found in the elements, as ContainsElement and FindElement report it.
abbrev pub Finds : List ℕ → Elements → MessageElement → Type 0
Finds name es e =
    (contains_element name es ≡ true)
    × (find_element name es ≡ ok e)
    × (eq_bytes (fields_of e).element_name name ≡ true)

abbrev pub FindsNone : List ℕ → Elements → Type 0
FindsNone name es =
    (contains_element name es ≡ false) × (find_element name es ≡ throw message_element_not_found)

-- ContainsElement and FindElement agree: the first is true and the second returns an element of that
-- name, or the first is false and the second throws MessageElementNotFoundException.
pub find_element-contains_element :
    (name : List ℕ) (es : Elements) → ((e : MessageElement) × Finds name es e) ⊎ FindsNone name es
unfolding find_element contains_element
find_element-contains_element name nil = inr (refl, refl)
find_element-contains_element name (cons e es) =
    elim (Bool-cases (eq_bytes (fields_of e).element_name name)) [
      | inl h ↦ rw h (inl (e, (refl, refl, h)))
      | inr h ↦ rw h (find_element-contains_element name es)
    ]

find_element-push_back :
    (name : List ℕ) (m : MessageElement) (es : Elements)
    → eq_bytes (fields_of m).element_name name ≡ true
    → contains_element name es ≡ false
    → find_element name (push_back m es) ≡ ok m
unfolding find_element contains_element push_back
find_element-push_back name m nil same fresh = rw same refl
find_element-push_back name m (cons e es) same fresh =
    elim (Bool-cases (eq_bytes (fields_of e).element_name name)) [
      | inl h ↦ cc (if-true _ _ _ h fresh)
      | inr h ↦ rw h (find_element-push_back name m es same (if-false _ _ _ h fresh))
    ]

found_before :
    (name : List ℕ) (m : MessageElement) (es : Elements)
    → contains_element name es ≡ true
    → find_element name (push_back m es) ≡ find_element name es
unfolding find_element contains_element push_back
found_before name m nil h = cc
found_before name m (cons e es) h = elim (Bool-cases (eq_bytes (fields_of e).element_name name)) [
  | inl k ↦ rw k refl
  | inr k ↦ rw k (found_before name m es (if-false _ _ _ k h))
]

-- After AddElement of a name that the entry does not contain, FindElement returns the added element.
pub find_element-add_element :
    (name : List ℕ) (d : ElementData) (e : MessageEntry)
    → contains_element name e.elements ≡ false
    → find_element name (add_element name d e).1.elements ≡ ok (add_element name d e).0
unfolding add_element create_message_element set_data
find_element-add_element name d e fresh =
    find_element-push_back name (create_message_element name d) e.elements (eq_bytes_refl name)
      fresh

-- After AddElement of a name that the entry already contains, under any data, FindElement returns
-- what it returned before: the added element is hidden.
pub find_element-add_element_again :
    (name : List ℕ) (d : ElementData) (e : MessageEntry)
    → contains_element name e.elements ≡ true
    → find_element name (add_element name d e).1.elements ≡ find_element name e.elements
unfolding add_element
find_element-add_element_again name d e old =
    found_before name (create_message_element name d) e.elements old
