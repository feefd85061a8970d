-- ===== src/Logging/Time.antt =====
-- `format_time` of src/log.rs. A result `none` is the overflow of the addition on u64, which panics
-- where overflows are checked.
use rouille.Common.{
  ℕ, ◌+◌, ◌*◌, ◌^◌, ◌≤◌, ◌<◌, ◌≡◌, ◌↔◌, Option, none, some, ◌++◌, ltb, if◌then◌else◌, Text, text,
  decimal, arith,
}

-- `as_secs` and `subsec_nanos`
pub record Duration : Type 0 where
  pub as_secs : ℕ
  pub subsec_nanos : ℕ

-- `format!("{}", n as f64)` and `format!("{:.1}", n as f64 / d)`
pub record Floats : Type 0 where
  pub show : ℕ → Text
  pub show_quotient : ℕ → ℕ → Text

unfoldable in_nanos : Floats → ℕ → Text
in_nanos floats n =
    if ltb n 1000
    then decimal n ++ text "ns"
    else if ltb n 1000000
    then floats.show_quotient n 1000 ++ text "us"
    else if ltb n 1000000000
    then floats.show_quotient n 1000000 ++ text "ms"
    else floats.show_quotient n 1000000000 ++ text "s"

unfoldable pub format_time : Floats → Duration → Option Text
unfolding in_nanos decimal
format_time floats duration =
    let secs_part = duration.as_secs * 1000000000 in
    let duration_in_ns = secs_part + duration.subsec_nanos in
    if ltb secs_part (2 ^ 64)
    then if ltb duration_in_ns (2 ^ 64) then some (in_nanos floats duration_in_ns) else none
    else some (floats.show duration.as_secs ++ text "s")

-- With fewer than 10^9 nanoseconds beside the seconds, `format_time` overflows exactly for
-- 18446744073 seconds and at least 709551616 nanoseconds, and otherwise it gives a text.
pub format_time-none_iff :
    (floats : Floats) (duration : Duration)
    → duration.subsec_nanos < 1000000000
    → (format_time floats duration ≡ none)
      ↔ ((duration.as_secs ≡ 18446744073) × (709551616 ≤ duration.subsec_nanos))
unfolding format_time
format_time-none_iff floats duration h = ground arith
