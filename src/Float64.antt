-- ===== src/Float64.antt =====
-- Go's float64 with the operations of it, and of package math, that the program uses. The type is a
-- parameter of the model, so that nothing is assumed of rounding, of infinities or of NaN; `a > b` and
-- `a >= b` are `lt b a` and `le b a`, as for IEEE 754.
use wrany.Prelude.{String, ℕ, ◌+◌, ◌-◌, ◌*◌, ◌/◌, ◌^◌, Bool, ltb, leb, if◌then◌else◌}

pub record Float64 (W : Type 0) : Type 0 where
  -- `decimal m e` is the literal m * 10^-e
  pub decimal : ℕ → ℕ → W
  pub of_ℕ : ℕ → W
  pub neg : W → W
  pub add : W → W → W
  pub sub : W → W → W
  pub mul : W → W → W
  pub div : W → W → W
  pub lt : W → W → Bool
  pub le : W → W → Bool
  pub pi : W
  pub sin : W → W
  pub cos : W → W
  pub sqrt : W → W
  pub atan2 : W → W → W
  pub abs : W → W
  pub fmax : W → W → W
  pub fmin : W → W → W
  pub max_float64 : W
  -- `int(math.Floor(x))`, `int(math.Ceil(x))` and `int64(math.Round(x))` of an x that is not negative
  pub floor : W → ℕ
  pub ceil : W → ℕ
  pub round : W → ℕ
  -- `fmt` with the verb %v
  pub show : W → String

module _ {W : Type 0} ⦃f : Float64 W⦄ where
  open f use {decimal, of_ℕ, add, sub, mul, div, sin, cos, sqrt, atan2, pi}

  abbrev pub nought : W
  nought = of_ℕ 0

  -- `HaversineM`, in the order in which Go evaluates it.
  unfoldable pub haversine_m : W → W → W → W → W
  haversine_m lat1 lon1 lat2 lon2 =
      let rad = λ (x : W). div (mul x pi) (of_ℕ 180) in
      let phi1 = rad lat1 in
      let phi2 = rad lat2 in
      let half_phi = div (rad (sub lat2 lat1)) (of_ℕ 2) in
      let half_lambda = div (rad (sub lon2 lon1)) (of_ℕ 2) in
      let a =
        add (mul (sin half_phi) (sin half_phi))
          (mul (mul (mul (cos phi1) (cos phi2)) (sin half_lambda)) (sin half_lambda)) in
      mul (mul (of_ℕ 6_371_000) (of_ℕ 2)) (atan2 (sqrt a) (sqrt (sub (of_ℕ 1) a)))

-- Thousandths, as a stand-in at which definitions run.
abbrev pub Milli : Type 0
Milli = ℕ

instance abbrev pub milli : Float64 Milli
milli = record {
  decimal = λ m e. m * 1000 / 10 ^ e;
  of_ℕ = λ n. n * 1000;
  neg = λ a. 0;
  add = λ a b. a + b;
  sub = λ a b. a - b;
  mul = λ a b. a * b / 1000;
  div = λ a b. a * 1000 / b;
  lt = ltb;
  le = leb;
  pi = 3142;
  sin = λ a. a;
  cos = λ a. 1000;
  sqrt = λ a. a;
  atan2 = λ a b. a;
  abs = λ a. a;
  fmax = λ a b. if leb a b then b else a;
  fmin = λ a b. if leb a b then a else b;
  max_float64 = 10 ^ 30;
  floor = λ a. a / 1000;
  ceil = λ a. (a + 999) / 1000;
  round = λ a. (a + 500) / 1000;
  show = λ a. "number";
}
