-- ===== src/Log/Rotation/Due.antt =====
-- timestamp_from_midnight and the hour of the rotation.
use sqlbus.Prelude.{ℕ, ◌+◌, ◌-◌, ◌%◌, ◌≡◌, ◌==◌, arith}
use sqlbus.Disk.{Disk}
use sqlbus.Log.Rotation.{is_due}

module _ (D : Disk) where
  open D use {mktime}

  -- In a time zone that is `offset` seconds ahead of UTC, so that mktime takes midnight of UTC for a
  -- time that is so much earlier: the rotation is due just in the second at which the seconds since
  -- midnight of UTC and the offset are together the configured ones. These are never less than the
  -- offset: east of Greenwich no time of day before the offset is ever due.
  pub is_due-zone :
      (offset cron tnow : ℕ)
      → mktime (tnow - tnow % 86400) + offset ≡ tnow - tnow % 86400
      → is_due D cron tnow ≡ (tnow % 86400 + offset == cron)
  unfolding is_due
  is_due-zone offset cron tnow h = ground arith
