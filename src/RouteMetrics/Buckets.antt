-- ===== src/RouteMetrics/Buckets.antt =====
-- `_floor_bucket` of src/drift/node/route_metrics.py, and the shares in tens of percent.
use native.Mathlib.Nat.{div-le_of_le-mul, div-mul-le_self, mul-mod_left}
use community_ai.Prelude.{ℕ, ◌≡◌, ◌≤◌, ◌*◌, ◌/◌, ◌%◌, true, List, [], ◌∷◌, ◌==◌, arith, refl}
use community_ai.RouteMetrics.Observation.{
  elem, floor_bucket, demand_buckets, throughput_milli_tps_buckets,
}

pub floor_bucket_le : (v : ℕ) (bs : List ℕ) → floor_bucket v bs ≤ v
unfolding floor_bucket
floor_bucket_le v [] = omega arith
floor_bucket_le v (b ∷ bs) = ground (arith, floor_bucket_le v bs)

pub floor_bucket_mono : (v w : ℕ) (bs : List ℕ) → v ≤ w → floor_bucket v bs ≤ floor_bucket w bs
unfolding floor_bucket
floor_bucket_mono v w [] h = omega arith
floor_bucket_mono v w (b ∷ bs) h = ground (arith, floor_bucket_mono v w bs h)

-- The value is zero or a member.
elem_floor : (v : ℕ) (bs : List ℕ) → elem (floor_bucket v bs) (0 ∷ bs) ≡ true
unfolding floor_bucket elem
elem_floor v [] = refl
elem_floor v (b ∷ bs) = ground (arith, elem_floor v bs)

pub elem_demand : (v : ℕ) → elem (floor_bucket v demand_buckets) demand_buckets ≡ true
unfolding elem
elem_demand v = ground (arith, elem_floor v demand_buckets)

pub elem_throughput :
    (v : ℕ) → elem (floor_bucket v throughput_milli_tps_buckets) throughput_milli_tps_buckets ≡ true
unfolding elem
elem_throughput v = ground (arith, elem_floor v throughput_milli_tps_buckets)

-- Some attempt falls in a bucket that is not zero.
pub floor_bucket_pos : (v : ℕ) → 1 ≤ v → 1 ≤ floor_bucket v demand_buckets
unfolding floor_bucket
floor_bucket_pos v h = omega (arith, floor_bucket_mono 1 v demand_buckets h)

pub elem_demand_bound : (v : ℕ) → elem v demand_buckets ≡ true → v ≤ 64
unfolding elem
elem_demand_bound v h = ground arith

pub elem_throughput_bound : (v : ℕ) → elem v throughput_milli_tps_buckets ≡ true → v ≤ 64000
unfolding elem
elem_throughput_bound v h = ground arith

scale : (a s : ℕ) → s ≤ a → 1000 * s ≤ a * 1000
scale a s h = omega arith

-- A share of a whole in thousandths, in tens of percent.
pub share_bound : (a s : ℕ) → s ≤ a → 1000 * s / a / 100 * 100 ≤ 1000
share_bound a s h =
    omega (arith, div-le_of_le-mul a (scale a s h), div-mul-le_self (1000 * s / a) 100)

pub share_round : (n : ℕ) → ((n / 100 * 100) % 100 == 0) ≡ true
share_round n = rw (mul-mod_left (n / 100) 100) refl
