-- ===== src/Upload/Quota.antt =====
-- The storage quota of backend/internal/upload/service.go (`checkQuota`), with the wrap-around of its
-- int64 sum.
use nimbus_storage_platform.Base.{
  ℕ, suc, ◌+◌, ◌-◌, ◌*◌, ◌≤◌, ◌<◌, ◌≡◌, pos, negsuc, add64, two_pow_63, arith, if◌then◌else◌, leb,
}
use nimbus_storage_platform.Database.Actions.{World, ok, err}
use nimbus_storage_platform.Upload.Repository.{quota_exceeded}
use nimbus_storage_platform.Upload.Service.{Ports, Config, check_quota, check_usage, quota_limit}

add64-fits : (a b : ℕ) → a + b < two_pow_63 → add64 (pos a) (pos b) ≡ pos (a + b)
unfolding add64
add64-fits a b h = ground arith

add64-wraps :
    (a b : ℕ)
    → a < two_pow_63
    → b < two_pow_63
    → two_pow_63 ≤ a + b
    → add64 (pos a) (pos b) ≡ negsuc (2 * two_pow_63 - (a + b) - 1)
unfolding add64
add64-wraps a b h k l = ground arith

-- Adding a negative size to the stored bytes gives no more than they are.
add64-negative :
    (a n : ℕ)
    → a < two_pow_63
    → n < two_pow_63
    → add64 (pos a) (negsuc n) ≡ (if leb (suc n) a then pos (a - suc n) else negsuc (n - a))
unfolding add64
add64-negative a n h k = ground arith

-- What `checkQuota` reads: the limit in force for the organisation and its stored bytes.
pub record Reads (ports : Ports) (config : Config) (org_id : ℕ) (w v : World) (limit used : ℕ)
    : Type 0 where
  pub mid : World
  pub limited : quota_limit ports config org_id w ≡ (ok (pos limit), mid)
  pub used_bytes : ports.org_usage_bytes org_id mid ≡ (ok (pos used), v)

module _ (ports : Ports) (config : Config) (org_id : ℕ) (w v : World) (limit used : ℕ) where
  -- Where the sum does not wrap, the quota is exact: with a positive limit, a size is admitted
  -- exactly when the stored bytes and it together are within the limit.
  pub check_quota_exact :
      (size : ℕ)
      → Reads ports config org_id w v limit used
      → 0 < limit
      → used + size < two_pow_63
      → check_quota ports config org_id (pos size) w
        ≡ (if leb (used + size) limit then (ok tt, v) else (err quota_exceeded, v))
  unfolding check_quota check_usage
  check_quota_exact size r p fits = ground (arith, r.limited, r.used_bytes, add64-fits used size)

  -- Where the sum passes 2^63 it wraps to a negative number, and any limit admits it.
  pub check_quota_overflow :
      (size : ℕ)
      → Reads ports config org_id w v limit used
      → used < two_pow_63
      → size < two_pow_63
      → two_pow_63 ≤ used + size
      → 0 < limit
      → check_quota ports config org_id (pos size) w ≡ (ok tt, v)
  unfolding check_quota check_usage
  check_quota_overflow size r p q wraps pos_limit =
      ground (arith, r.limited, r.used_bytes, add64-wraps used size)

  -- A negative size is admitted wherever the stored bytes alone are within the limit.
  pub check_quota_negative :
      (n : ℕ)
      → Reads ports config org_id w v limit used
      → used < two_pow_63
      → n < two_pow_63
      → 0 < limit
      → used ≤ limit
      → check_quota ports config org_id (negsuc n) w ≡ (ok tt, v)
  unfolding check_quota check_usage
  check_quota_negative n r p q pos_limit within =
      ground (arith, r.limited, r.used_bytes, add64-negative used n)
