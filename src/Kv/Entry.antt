-- ===== src/Kv/Entry.antt =====
-- internal/kv/entry.go: one versioned record, the order of writes and expiry.
-- A time is a number of nanoseconds since the Unix epoch.
pub mod Order
use quorum_market.Common.{
  ℕ, ◌/◌, Bool, not, ◌&&◌, ℤ, pos, ltb_ℤ, leb_ℤ, eqb_ℤ, if◌then◌else◌, Str, str_lt,
}

pub record Entry : Type 0 where
  pub key : Str
  pub value : Str
  pub version : ℤ  -- int64
  pub origin : Str
  pub expires_at : ℤ  -- int64, Unix milliseconds; 0 is never

-- `time.Time.UnixMilli`
abbrev pub unix_milli : ℕ → ℕ
unix_milli t = t / 1000000

unfoldable pub newer : Entry → Entry → Bool
newer e other =
    if not (eqb_ℤ e.version other.version)
    then ltb_ℤ other.version e.version
    else str_lt other.origin e.origin

unfoldable pub expired : Entry → ℕ → Bool
expired e now = not (eqb_ℤ e.expires_at (pos 0)) && leb_ℤ e.expires_at (pos (unix_milli now))
