-- ===== src/Message/V4/Flags.antt =====
-- The flags of RobotRaconteurConstants.h that say which sections a version 4 header, entry or element
-- has, and what UpdateHeader4 and UpdateData4 make of them.
use robotraconteur_pyodide.Prelude.{
  ℕ, zero, suc, ◌<◌, ◌≡◌, refl, Bool, true, false, not, ◌&&◌, arith, ltb, ◌==◌, if◌then◌else◌,
}
use native.Mathlib.Decide.{dec_lt}
use robotraconteur_pyodide.Message.Data.{has, with_flag, without_flag}

-- `if (b) flags |= mask; else flags &= ~mask;`
abbrev pub set_flag : Bool → ℕ → ℕ → ℕ
set_flag b mask flags = if b then with_flag flags mask else without_flag flags mask

-- MessageElementFlags: ELEMENT_TYPE_NAME_STR, META_INFO and EXTENDED.
unfoldable pub element_flags4 : Bool → Bool → Bool → ℕ → ℕ
element_flags4 type_name meta extended flags =
    set_flag extended 0x80 (set_flag meta 0x20 (set_flag type_name 0x08 flags))

-- MessageEntryFlags: REQUEST_ID, ERROR, META_INFO and EXTENDED.
unfoldable pub entry_flags4 : Bool → Bool → Bool → Bool → ℕ → ℕ
entry_flags4 request err meta extended flags =
    set_flag extended 0x80 (set_flag meta 0x40 (set_flag err 0x20 (set_flag request 0x10 flags)))

-- MessageFlags: MULTIPLE_ENTRIES, META_INFO and EXTENDED.
unfoldable pub header_flags4 : Bool → Bool → Bool → ℕ → ℕ
header_flags4 multiple meta extended flags =
    set_flag extended 0x80 (set_flag meta 0x10 (set_flag multiple 0x40 flags))

-- What those flags are to be, stated apart from the code.
abbrev pub IsElementFlags : Bool → Bool → Bool → ℕ → Type 0
IsElementFlags type_name meta extended flags =
    (has flags 0x08 ≡ type_name) × (has flags 0x20 ≡ meta) × (has flags 0x80 ≡ extended)

abbrev pub IsEntryFlags : Bool → Bool → Bool → Bool → ℕ → Type 0
IsEntryFlags request err meta extended flags =
    (has flags 0x10 ≡ request)
    × (has flags 0x20 ≡ err)
    × (has flags 0x40 ≡ meta)
    × (has flags 0x80 ≡ extended)

abbrev pub IsHeaderFlags : Bool → Bool → Bool → ℕ → Type 0
IsHeaderFlags multiple meta extended flags =
    (has flags 0x40 ≡ multiple) × (has flags 0x10 ≡ meta) × (has flags 0x80 ≡ extended)

-- A test on all flags below `n`.
abbrev all_below : ℕ → (ℕ → Bool) → Bool
all_below zero test = true
all_below (suc n) test = test n && all_below n test

both_true : (x y : Bool) → (x && y) ≡ true → (x ≡ true) × (y ≡ true)
both_true true y h = (refl, h)
both_true false y h = cc

all_below_lem : (n : ℕ) (test : ℕ → Bool) (x : ℕ) → all_below n test ≡ true → x < n → test x ≡ true
all_below_lem zero test x h k = absurd (omega arith)
all_below_lem (suc n) test x h k =
    let (first, others) = both_true (test n) (all_below n test) h in
    elim (dec_lt x n) [
      | yes low ↦ all_below_lem n test x others low
      | no top ↦ let same : x ≡ n = omega arith in rw same first
    ]

ltb-lt : (y : ℕ) → ltb y 256 ≡ true → y < 256
ltb-lt y h = ground arith

-- Equality of Booleans.
abbrev agree : Bool → Bool → Bool
agree true y = y
agree false y = not y

agree-eq : (x y : Bool) → agree x y ≡ true → x ≡ y
agree-eq true true h = refl
agree-eq true false h = cc
agree-eq false true h = cc
agree-eq false false h = refl

agree_three :
    (x y z a b c : Bool)
    → (agree x a && (agree y b && agree z c)) ≡ true
    → (x ≡ a) × (y ≡ b) × (z ≡ c)
agree_three x y z a b c h =
    let (one, more) = both_true _ _ h in
    let (two, three) = both_true _ _ more in
    (agree-eq x a one, agree-eq y b two, agree-eq z c three)

eq_lem : (a b : ℕ) → (a == b) ≡ true → a ≡ b
eq_lem a b h = ground arith

-- Flags that are set already stay, and the flags of the name and the codes are not touched.
abbrev element_test : Bool → Bool → Bool → ℕ → Bool
element_test a b c x =
    let y = element_flags4 a b c x in
    (element_flags4 a b c y == y)
    && (agree (has y 0x10) (has x 0x10)
        && (agree (has y 0x03 && has y 0x04) (has x 0x03 && has x 0x04)
            && (ltb y 256
                && (agree (has y 0x08) a && (agree (has y 0x20) b && agree (has y 0x80) c)))))

element_table : (a b c : Bool) → all_below 256 (element_test a b c) ≡ true
unfolding element_flags4
element_table false false false = refl
element_table false false true = refl
element_table false true false = refl
element_table false true true = refl
element_table true false false = refl
element_table true false true = refl
element_table true true false = refl
element_table true true true = refl

pub element_flags4_lem :
    (a b c : Bool) (x : ℕ)
    → x < 256
    → (element_flags4 a b c (element_flags4 a b c x) ≡ element_flags4 a b c x)
      × (has (element_flags4 a b c x) 0x10 ≡ has x 0x10)
      × ((has (element_flags4 a b c x) 0x03 && has (element_flags4 a b c x) 0x04)
          ≡ (has x 0x03 && has x 0x04))
      × (element_flags4 a b c x < 256)
      × IsElementFlags a b c (element_flags4 a b c x)
element_flags4_lem a b c x h =
    let (one, more) =
      both_true _ _ (all_below_lem 256 (element_test a b c) x (element_table a b c) h) in
    let (two, rest) = both_true _ _ more in
    let (three, others) = both_true _ _ rest in
    let (four, set) = both_true _ _ others in
    (
      eq_lem _ _ one,
      agree-eq _ _ two,
      agree-eq _ _ three,
      ltb-lt _ four,
      agree_three _ _ _ _ _ _ set,
    )

abbrev entry_test : Bool → Bool → Bool → Bool → ℕ → Bool
entry_test a b c d x =
    let y = entry_flags4 a b c d x in
    (entry_flags4 a b c d y == y)
    && (ltb y 256
        && (agree (has y 0x10) a
            && (agree (has y 0x20) b && (agree (has y 0x40) c && agree (has y 0x80) d))))

entry_table : (a b c d : Bool) → all_below 256 (entry_test a b c d) ≡ true
unfolding entry_flags4
entry_table false false false false = refl
entry_table false false false true = refl
entry_table false false true false = refl
entry_table false false true true = refl
entry_table false true false false = refl
entry_table false true false true = refl
entry_table false true true false = refl
entry_table false true true true = refl
entry_table true false false false = refl
entry_table true false false true = refl
entry_table true false true false = refl
entry_table true false true true = refl
entry_table true true false false = refl
entry_table true true false true = refl
entry_table true true true false = refl
entry_table true true true true = refl

pub entry_flags4_lem :
    (a b c d : Bool) (x : ℕ)
    → x < 256
    → (entry_flags4 a b c d (entry_flags4 a b c d x) ≡ entry_flags4 a b c d x)
      × (entry_flags4 a b c d x < 256)
      × IsEntryFlags a b c d (entry_flags4 a b c d x)
entry_flags4_lem a b c d x h =
    let (one, more) =
      both_true _ _ (all_below_lem 256 (entry_test a b c d) x (entry_table a b c d) h) in
    let (two, rest) = both_true _ _ more in
    let (three, others) = both_true _ _ rest in
    let (err, meta, extended) = agree_three _ _ _ _ _ _ others in
    (eq_lem _ _ one, ltb-lt _ two, (agree-eq _ _ three, err, meta, extended))

abbrev header_test : Bool → Bool → Bool → ℕ → Bool
header_test a b c x =
    let y = header_flags4 a b c x in
    ltb y 256 && (agree (has y 0x40) a && (agree (has y 0x10) b && agree (has y 0x80) c))

header_table : (a b c : Bool) → all_below 256 (header_test a b c) ≡ true
unfolding header_flags4
header_table false false false = refl
header_table false false true = refl
header_table false true false = refl
header_table false true true = refl
header_table true false false = refl
header_table true false true = refl
header_table true true false = refl
header_table true true true = refl

pub header_flags4_lem :
    (a b c : Bool) (x : ℕ)
    → x < 256
    → (header_flags4 a b c x < 256) × IsHeaderFlags a b c (header_flags4 a b c x)
header_flags4_lem a b c x h =
    let (one, two) =
      both_true _ _ (all_below_lem 256 (header_test a b c) x (header_table a b c) h) in
    (ltb-lt _ one, agree_three _ _ _ _ _ _ two)
