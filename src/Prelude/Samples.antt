-- ===== src/Prelude/Samples.antt =====
-- Floats without fractions, for the tests: numbers of seconds and difficulties.
use forgenx_engine.Prelude.{ℕ, ◌+◌, ◌-◌, ◌*◌, ◌/◌, ◌^◌, ltb, leb}
use forgenx_engine.Prelude.Int.{pos, pos_part}
use forgenx_engine.Prelude.Float.{Floats}

abbrev pub whole_floats : Floats
whole_floats = record {
  F = ℕ;
  lt = ltb;
  le = leb;
  add = λ a b. a + b;
  sub = λ a b. a - b + (b - a);
  mul = λ a b. a * b;
  div = λ a b. a / b;
  abs = λ a. a;
  round = λ a. a;
  pow10 = λ n. 10 ^ pos_part n;
  of_nat = λ n. n;
  of_int = pos_part;
  to_u64 = λ a. a;
  to_i64 = pos;
  seconds = λ d. pos_part d / 10 ^ 9;
  quo_int = λ n d. n / d;
  quo = λ a b. a / b;
}
