-- ===== src/Wire/Time.antt =====
-- What the arithmetic and the comparisons of TimeSpec mean: a time is a number of nanoseconds.
use robotraconteur_pyodide.Prelude.{
  ℕ, ◌+◌, ◌*◌, ◌<◌, ◌≡◌, ◌∙◌, ltb, leb, ◌==◌, if◌then◌else◌, arith,
}
use robotraconteur_pyodide.Prelude.Int.{
  ℤ, pos, pos_part, neg_part, ◌+ℤ◌, ◌-ℤ◌, div_ℤ, mod_ℤ, ltb_ℤ, is_zero_ℤ,
}
use robotraconteur_pyodide.Wire.TimeSpec.{
  TimeSpec, giga, raise_nanoseconds, lower_nanoseconds, cleanup_nanosecs, new_time_spec, equal,
  minus, greater, less, less_equal,
}

-- The nanoseconds since the epoch, as the difference of two numbers.
abbrev pub after : TimeSpec → ℕ
after t = pos_part t.seconds * giga + pos_part t.nanoseconds

abbrev pub before : TimeSpec → ℕ
before t = neg_part t.seconds * giga + neg_part t.nanoseconds

-- Fewer nanoseconds than a second, and none against the sign of the seconds.
pub record IsNormal (t : TimeSpec) : Type 0 where
  pub low : neg_part t.nanoseconds < giga
  pub high : pos_part t.nanoseconds < giga
  pub positive : 0 < pos_part t.seconds → neg_part t.nanoseconds ≡ 0
  pub negative : 0 < neg_part t.seconds → pos_part t.nanoseconds ≡ 0

-- The same time.
abbrev pub Same : TimeSpec → TimeSpec → Type 0
Same t u = after t + before u ≡ before t + after u

-- The first step of cleanup_nanosecs.
abbrev whole_seconds : TimeSpec → TimeSpec
whole_seconds t = record {
  seconds = t.seconds +ℤ div_ℤ t.nanoseconds giga;
  nanoseconds = mod_ℤ t.nanoseconds giga;
}

carried : (t : TimeSpec) → Same (whole_seconds t) t
carried t = ground arith

raised : (t : TimeSpec) → Same (raise_nanoseconds t) t
raised t = ground arith

lowered : (t : TimeSpec) → Same (lower_nanoseconds t) t
lowered t = ground arith

pub cleanup-Same : (t : TimeSpec) → Same (cleanup_nanosecs t) t
unfolding cleanup_nanosecs
cleanup-Same t =
    omega
      (arith, carried t, raised (whole_seconds t), lowered (raise_nanoseconds (whole_seconds t)))

-- After the first correction only the nanoseconds of a negative time may have the other sign.
record IsRaised (t : TimeSpec) : Type 0 where
  low : neg_part t.nanoseconds < giga
  high : pos_part t.nanoseconds < giga
  positive : 0 < pos_part t.seconds → neg_part t.nanoseconds ≡ 0

raise-IsRaised :
    (t : TimeSpec)
    → neg_part t.nanoseconds < giga
    → pos_part t.nanoseconds < giga
    → IsRaised (raise_nanoseconds t)
raise-IsRaised t low high = record {
  low = ground arith;
  high = ground arith;
  positive = ground arith;
}

lower-IsNormal : (t : TimeSpec) → IsRaised t → IsNormal (lower_nanoseconds t)
lower-IsNormal t v = record {
  low = ground (arith, v);
  high = ground (arith, v);
  positive = ground (arith, v);
  negative = ground (arith, v);
}

pub cleanup-IsNormal : (t : TimeSpec) → IsNormal (cleanup_nanosecs t)
unfolding cleanup_nanosecs
cleanup-IsNormal t =
    lower-IsNormal (raise_nanoseconds (whole_seconds t))
      (raise-IsRaised (whole_seconds t) (ground arith) (ground arith))

-- The difference before it is cleaned up.
abbrev fieldwise : TimeSpec → TimeSpec → TimeSpec
fieldwise t u = record {
  seconds = t.seconds -ℤ u.seconds;
  nanoseconds = t.nanoseconds -ℤ u.nanoseconds;
}

raw_value :
    (t u : TimeSpec)
    → after (fieldwise t u) + (before t + after u) ≡ before (fieldwise t u) + (after t + before u)
raw_value t u = ground arith

minus_value :
    (t u : TimeSpec)
    → after (minus t u) + (before t + after u) ≡ before (minus t u) + (after t + before u)
unfolding minus new_time_spec
minus_value t u = omega (arith, cleanup-Same (fieldwise t u), raw_value t u)

minus-IsNormal : (t u : TimeSpec) → IsNormal (minus t u)
unfolding minus new_time_spec
minus-IsNormal t u = cleanup-IsNormal (fieldwise t u)

-- The signs of a normal time.
positive_lem :
    (t : TimeSpec)
    → IsNormal t
    → (if is_zero_ℤ t.seconds then ltb_ℤ (pos 0) t.nanoseconds else ltb_ℤ (pos 0) t.seconds)
      ≡ ltb (before t) (after t)
positive_lem t v = ground (arith, v)

negative_lem :
    (t : TimeSpec)
    → IsNormal t
    → (if is_zero_ℤ t.seconds then ltb_ℤ t.nanoseconds (pos 0) else ltb_ℤ t.seconds (pos 0))
      ≡ ltb (after t) (before t)
negative_lem t v = ground (arith, v)

-- TimeSpec(s, n) has fewer nanoseconds than a second, and none against the sign of the seconds, and is
-- the time that s seconds and n nanoseconds are.
pub new_time_spec_lem :
    (s n : ℤ)
    → IsNormal (new_time_spec s n)
      × Same (new_time_spec s n) (record { seconds = s; nanoseconds = n })
unfolding new_time_spec
new_time_spec_lem s n =
    let t : TimeSpec = record { seconds = s; nanoseconds = n } in
    (cleanup-IsNormal t, cleanup-Same t)

ltb_same : (a b c d : ℕ) → a + d ≡ b + c → ltb b a ≡ ltb d c
ltb_same a b c d h = ground arith

ltb_same_left : (a b c d : ℕ) → a + d ≡ b + c → ltb a b ≡ ltb c d
ltb_same_left a b c d h = ground arith

-- `>` and `<` compare the numbers of nanoseconds, whether or not the times are normal.
pub greater_lem : (t u : TimeSpec) → greater t u ≡ ltb (before t + after u) (after t + before u)
unfolding greater
greater_lem t u = positive_lem (minus t u) (minus-IsNormal t u) ∙ ltb_same _ _ _ _ (minus_value t u)

pub less_lem : (t u : TimeSpec) → less t u ≡ ltb (after t + before u) (before t + after u)
unfolding less
less_lem t u =
    negative_lem (minus t u) (minus-IsNormal t u) ∙ ltb_same_left _ _ _ _ (minus_value t u)

-- Normal times are equal where they are as many nanoseconds.
pub equal_lem :
    (t u : TimeSpec)
    → IsNormal t
    → IsNormal u
    → equal t u ≡ (after t + before u == before t + after u)
unfolding equal
equal_lem t u v w = ground (arith, v, w)

pub less_equal_lem :
    (t u : TimeSpec)
    → IsNormal t
    → IsNormal u
    → less_equal t u ≡ leb (after t + before u) (before t + after u)
unfolding less_equal
less_equal_lem t u v w = rw (equal_lem t u v w, less_lem t u) (ground arith)
