-- ===== src/Double/Fixed.antt =====
-- An arithmetic that meets the interface, for tests and witnesses: numbers with three decimals,
-- angles counted in quarter turns.
use tpc_api.Prelude.{
  ℕ, zero, suc, ◌+◌, ◌-◌, ◌*◌, ◌/◌, ◌%◌, ◌^◌, true, false, leb, ◌==◌, if◌then◌else◌,
}
use tpc_api.Prelude.Int.{
  ℤ, pos, negsuc, size, is_negative, with_sign, ◌+ℤ◌, ◌-ℤ◌, leb_ℤ, ltb_ℤ, mul_div, scale_div,
}
use tpc_api.Double.Interface.{Double}

abbrev unit : ℕ
unit = 1000

-- The greatest r from `r` up with r * r ≤ n, within `rounds` steps.
abbrev pub isqrt_from : ℕ → ℕ → ℕ → ℕ
isqrt_from zero n r = r
isqrt_from (suc rounds) n r = elim (leb ((r + 1) * (r + 1)) n) [
  | true ↦ isqrt_from rounds n (r + 1)
  | false ↦ r
]

abbrev pub quarters : ℤ → ℕ
quarters (pos n) = n / unit % 4
quarters (negsuc n) = (4 - (n + 1) / unit % 4) % 4

abbrev pub cosine : ℕ → ℤ
cosine n = if n == 0 then pos unit else if n == 2 then with_sign true unit else pos 0

abbrev pub fixed_atan2 : ℤ → ℤ → ℤ
fixed_atan2 y x =
    if size y == 0
    then (if is_negative x then pos (2 * unit) else pos 0)
    else if is_negative y
    then pos (3 * unit)
    else pos unit

instance abbrev pub fixed : Double ℤ
fixed = record {
  decimal = λ m e. pos (m * unit / 10 ^ e);
  of_size = λ n. pos (n * unit);
  add = ◌+ℤ◌;
  sub = ◌-ℤ◌;
  mul = λ a b. mul_div a b unit;
  div = λ a b. scale_div a unit b;
  neg = λ a. pos 0 -ℤ a;
  lt = ltb_ℤ;
  le = leb_ℤ;
  abs = λ a. pos (size a);
  sqrt = λ a. pos (isqrt_from 10000 (size a * unit) 0);
  hypot = λ a b. pos (isqrt_from 10000 (size a * size a + size b * size b) 0);
  atan2 = fixed_atan2;
  cos = λ a. cosine (quarters a);
  sin = λ a. cosine ((quarters a + 3) % 4);
  epsilon = pos 0;
  pi = pos (2 * unit);
}
