-- ===== src/Ema.antt =====
-- stats/src/stats.rs: the moving averages of intervals, over the arithmetic of `f32`.
use daqingest.Base.{ℕ, ◌+◌, ◌-◌, ◌%◌, ◌^◌, Option, none, some}

-- The operations of `f32` on bit patterns, and its conversions.
pub record F32 : Type 0 where
  pub add : ℕ → ℕ → ℕ
  pub sub : ℕ → ℕ → ℕ
  pub mul : ℕ → ℕ → ℕ
  pub div : ℕ → ℕ → ℕ
  pub max : ℕ → ℕ → ℕ
  pub sqrt : ℕ → ℕ
  pub tanh : ℕ → ℕ
  -- `as_secs_f32` of a duration
  pub secs : ℕ → ℕ
  pub from_u64 : ℕ → ℕ
  pub to_u64 : ℕ → ℕ

abbrev pub f32_one : ℕ
f32_one = 0x3f800000

pub record Ema32 : Type 0 where
  pub ema : ℕ
  pub emv : ℕ
  pub k : ℕ
  pub update_count : ℕ

pub record IntervalEma : Type 0 where
  pub tslast : Option ℕ
  pub avg : Ema32

-- `Ema32::default`, with 0.05
abbrev pub default : Ema32
default = record { ema = 0; emv = 0; k = 0x3d4ccccd; update_count = 0 }

abbrev pub new : IntervalEma
new = record { tslast = none; avg = default }

unfoldable pub update : F32 → ℕ → Ema32 → Ema32
update f v e =
    let dv = f.sub v e.ema in
    record {
      ema = f.add e.ema (f.mul e.k dv);
      emv = f.mul (f.sub f32_one e.k) (f.add e.emv (f.mul (f.mul e.k dv) dv));
      k = e.k;
      update_count = (e.update_count + 1) % 2 ^ 64;
    }

-- `duration_since` is 0 for a time before
unfoldable pub tick : F32 → ℕ → IntervalEma → IntervalEma
tick f tsnow e = elim e.tslast [
  | some tslast ↦ record { tslast = some tsnow; avg = update f (f.secs (tsnow - tslast)) e.avg }
  | none ↦ record e { tslast = some tsnow }
]
