-- ===== src/Arrays.antt =====
-- The numeric array types of RobotRaconteurCore/include/RobotRaconteur/RobotRaconteurConstants.h
-- (enum DataTypes) and the array functions of RobotRaconteurCore/src/DataTypes.cpp. An RRBaseArray
-- is its type, its element count and the bytes of its elements in memory order.
use robotraconteur_pyodide.Prelude.{
  ℕ, ◌*◌, ◌^◌, ◌<◌, ◌≡◌, lt→ltb, ◌&&◌, ◌||◌, List, ltb, leb, ◌==◌, if◌then◌else◌, length,
}
use robotraconteur_pyodide.Outcome.{Result, ok, throw, data_type, bad_array_new_length}

-- The values of the enum that the serialisation code names.
abbrev pub void_t : ℕ
void_t = 0

abbrev pub string_t : ℕ
string_t = 11

abbrev pub structure_t : ℕ
structure_t = 101

-- How the switches of the serialisation code sort a DataTypes value: 0 is void, 1 to 14 are the
-- array types from double_t to bool_t, and the nested types are structure_t 101, vector_t 102,
-- dictionary_t 103, list_t 108, pod_t 109, pod_array_t 110, pod_multidimarray_t 111,
-- namedarray_array_t 115, namedarray_multidimarray_t 116 and multidimarray_t 117.
pub data Kind : Type 0 where
  void scalars nested unknown : Kind

unfoldable pub kind : ℕ → Kind
kind t =
    if t == 0
    then void
    else if ltb t 15
    then scalars
    else if (leb 101 t && leb t 103) || ((leb 108 t && leb t 111) || (leb 115 t && leb t 117))
    then nested
    else unknown

-- `switch (type)` with its cases for void, the array types and the nested types, and its default.
abbrev pub switch : {A : Type 0} → Kind → A → A → A → A → A
switch void v s n d = v
switch scalars v s n d = s
switch nested v s n d = n
switch unknown v s n d = d

-- RRArrayElementSize on the array types.
unfoldable pub element_size : ℕ → ℕ
element_size t =
    if t == 1
    then 8
    else if t == 2
    then 4
    else if leb t 4
    then 1
    else if leb t 6
    then 2
    else if leb t 8
    then 4
    else if leb t 10
    then 8
    else if t == 12
    then 16
    else if t == 13
    then 8
    else 1

-- RRArrayElementSize; every other type is refused.
unfoldable pub rr_array_element_size : ℕ → Result ℕ
rr_array_element_size t =
    switch (kind t) (throw data_type) (ok (element_size t)) (throw data_type) (throw data_type)

pub record RrBaseArray : Type 0 where
  pub type_id : ℕ
  pub size : ℕ
  pub contents : List ℕ

-- The memory of an array holds its elements.
abbrev pub IsArray : RrBaseArray → Type 0
IsArray a = (kind a.type_id ≡ scalars) × (length a.contents ≡ element_size a.type_id * a.size)

-- `new T[length]` refuses a size that a 32-bit size_t cannot hold. The elements are not yet set:
-- the result is the number of bytes that the array has.
unfoldable pub allocate_rr_array_by_type : ℕ → ℕ → Result ℕ
allocate_rr_array_by_type t n =
    switch (kind t) (throw data_type)
      (if ltb (element_size t * n) (2 ^ 32)
        then ok (element_size t * n)
        else throw bad_array_new_length)
      (throw data_type) (throw data_type)

pub rr_array_element_size_lem :
    (t : ℕ) → kind t ≡ scalars → rr_array_element_size t ≡ ok (element_size t)
unfolding rr_array_element_size
rr_array_element_size_lem t k = rw k

pub allocate_rr_array_by_type_lem :
    (t n : ℕ)
    → kind t ≡ scalars
    → element_size t * n < 2 ^ 32
    → allocate_rr_array_by_type t n ≡ ok (element_size t * n)
unfolding allocate_rr_array_by_type
allocate_rr_array_by_type_lem t n k h = rw (k, lt→ltb (element_size t * n) (2 ^ 32) h)
