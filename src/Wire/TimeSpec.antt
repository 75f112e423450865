-- ===== src/Wire/TimeSpec.antt =====
-- TimeSpec of RobotRaconteurCore/src/DataTypes.cpp. Its integers do not wrap here: overflow of a signed
-- integer is undefined in C++, and the theorems keep the fields where there is none.
use robotraconteur_pyodide.Prelude.{ℕ, Bool, true, ◌&&◌, if◌then◌else◌}
use robotraconteur_pyodide.Prelude.Int.{ℤ, pos, ◌+ℤ◌, ◌-ℤ◌, div_ℤ, mod_ℤ, ltb_ℤ, eqb_ℤ, is_zero_ℤ}

pub record TimeSpec : Type 0 where
  pub seconds : ℤ
  pub nanoseconds : ℤ

abbrev pub giga : ℕ
giga = 1000000000

-- The two corrections at the end of cleanup_nanosecs.
abbrev pub raise_nanoseconds : TimeSpec → TimeSpec
raise_nanoseconds t =
    if ltb_ℤ (pos 0) t.seconds && ltb_ℤ t.nanoseconds (pos 0)
    then record { seconds = t.seconds -ℤ pos 1; nanoseconds = pos giga +ℤ t.nanoseconds }
    else t

abbrev pub lower_nanoseconds : TimeSpec → TimeSpec
lower_nanoseconds t =
    if ltb_ℤ t.seconds (pos 0) && ltb_ℤ (pos 0) t.nanoseconds
    then record { seconds = t.seconds +ℤ pos 1; nanoseconds = t.nanoseconds -ℤ pos giga }
    else t

unfoldable pub cleanup_nanosecs : TimeSpec → TimeSpec
cleanup_nanosecs t = lower_nanoseconds (
    raise_nanoseconds (record {
      seconds = t.seconds +ℤ div_ℤ t.nanoseconds giga;
      nanoseconds = mod_ℤ t.nanoseconds giga;
    }))

-- The constructor.
unfoldable pub new_time_spec : ℤ → ℤ → TimeSpec
unfolding cleanup_nanosecs
new_time_spec s n = cleanup_nanosecs (record { seconds = s; nanoseconds = n })

unfoldable pub equal : TimeSpec → TimeSpec → Bool
equal t u = eqb_ℤ t.seconds u.seconds && eqb_ℤ t.nanoseconds u.nanoseconds

unfoldable pub minus : TimeSpec → TimeSpec → TimeSpec
unfolding new_time_spec
minus t u = new_time_spec (t.seconds -ℤ u.seconds) (t.nanoseconds -ℤ u.nanoseconds)

unfoldable pub plus : TimeSpec → TimeSpec → TimeSpec
unfolding new_time_spec
plus t u = new_time_spec (t.seconds +ℤ u.seconds) (t.nanoseconds +ℤ u.nanoseconds)

unfoldable pub greater : TimeSpec → TimeSpec → Bool
unfolding minus
greater t u =
    let diff = minus t u in
    if is_zero_ℤ diff.seconds then ltb_ℤ (pos 0) diff.nanoseconds else ltb_ℤ (pos 0) diff.seconds

unfoldable pub less : TimeSpec → TimeSpec → Bool
unfolding minus
less t u =
    let diff = minus t u in
    if is_zero_ℤ diff.seconds then ltb_ℤ diff.nanoseconds (pos 0) else ltb_ℤ diff.seconds (pos 0)

unfoldable pub less_equal : TimeSpec → TimeSpec → Bool
unfolding equal less
less_equal t u = if equal t u then true else less t u

unfoldable pub greater_equal : TimeSpec → TimeSpec → Bool
unfolding equal greater
greater_equal t u = if equal t u then true else greater t u
