-- ===== src/Quanta/Intervals.antt =====
-- The intervals that an assessment compares: `_finite_interval`, `_contained` and `_disjoint` of
-- src/qste/quanta/service.py, and `_finite_interval` of src/qste/core/p6_contracts.py. Python's
-- floats are a parameter, `Floats`, with the order laws of IEEE comparison in `IsOrdered`.
use qste.Base.{String, ◌≡◌, Bool, true, false, ◌&&◌, ◌||◌, Option, none, some, str_eq}

pub record Floats : Type 1 where
  pub Float : Type 0
  -- `x <= y` and `x < y`
  pub leb : Float → Float → Bool
  pub ltb : Float → Float → Bool
  pub neg : Float → Float
  -- `math.isfinite`
  pub is_finite : Float → Bool

pub record IsOrdered (N : Floats) : Type 0 where
  pub leb_trans : (a b c : N.Float) → N.leb a b ≡ true → N.leb b c ≡ true → N.leb a c ≡ true
  pub leb-not_ltb : (a b : N.Float) → N.leb a b ≡ true → N.ltb b a ≡ false

-- An interval record: a bound is `none` where it is missing or no number.
pub record Interval (N : Floats) : Type 0 where
  pub availability : String
  pub lower : Option N.Float
  pub upper : Option N.Float

module _ (N : Floats) where
  abbrev pub bounds_finite : Option N.Float → Option N.Float → Bool
  bounds_finite (some l) (some u) = N.is_finite l && N.is_finite u && N.leb l u
  bounds_finite _ _ = false

  abbrev pub finite_interval : Option (Interval N) → Bool
  finite_interval none = false
  finite_interval (some i) = str_eq i.availability "known" && bounds_finite i.lower i.upper

  -- A comparison of a bound; the code makes it only where the interval is finite.
  abbrev pub bound_ge : Option N.Float → N.Float → Bool
  bound_ge none x = false
  bound_ge (some b) x = N.leb x b

  abbrev pub bound_le : Option N.Float → N.Float → Bool
  bound_le none x = false
  bound_le (some b) x = N.leb b x

  abbrev pub bound_lt : Option N.Float → N.Float → Bool
  bound_lt none x = false
  bound_lt (some b) x = N.ltb b x

  abbrev pub bound_gt : Option N.Float → N.Float → Bool
  bound_gt none x = false
  bound_gt (some b) x = N.ltb x b

  abbrev pub contained : Interval N → N.Float → N.Float → Bool
  contained i lo hi = bound_ge i.lower lo && bound_le i.upper hi

  abbrev pub disjoint : Interval N → N.Float → N.Float → Bool
  disjoint i lo hi = bound_lt i.upper lo || bound_gt i.lower hi
