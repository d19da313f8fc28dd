-- ===== src/Model/Expire.antt =====
-- pkg/model/expire.go: the permission to log in to an asset. Times are Unix seconds.
use gojump.Prelude.{Bool, true, false, ◌≡◌, ◌≢◌, ◌↔◌, arith, if◌then◌else◌}
use gojump.Prelude.Int.{ℤ, pos, ltb_ℤ, ◌<ℤ◌, is_zero}

pub record ExpireInfo : Type 0 where
  pub expire_at : ℤ

unfoldable pub is_expired : ExpireInfo → ℤ → Bool
is_expired e now = if is_zero e.expire_at then false else ltb_ℤ e.expire_at now

-- Zero means no limit; otherwise the permission has expired exactly when its time lies before now.
pub is_expired_iff :
    (e : ExpireInfo) (now : ℤ)
    → (is_expired e now ≡ true) ↔ ((e.expire_at ≢ pos 0) × (e.expire_at <ℤ now))
unfolding is_expired
is_expired_iff e now = ground arith

-- A permission that has expired stays expired as time goes on.
pub is_expired_mono :
    (e : ExpireInfo) (now later : ℤ)
    → ltb_ℤ later now ≡ false
    → is_expired e now ≡ true
    → is_expired e later ≡ true
unfolding is_expired
is_expired_mono e now later h x = ground arith
