-- ===== src/Kv/Config.antt =====
-- internal/kv/config.go: the configuration of a node and its validation.
pub mod Quorums
use quorum_market.Common.{
  ℕ, suc, ◌+◌, Bool, true, false, not, ◌&&◌, ◌||◌, Option, none, some, List, ℤ, pos, pos_part,
  neg_part, ltb_ℤ, if◌then◌else◌, length, Str, bytes, str_eq,
}

abbrev pub mode_leader_follower : Str
mode_leader_follower = bytes "leader-follower"

abbrev pub mode_leaderless : Str
mode_leaderless = bytes "leaderless"

pub record Config : Type 0 where
  pub node_id : Str
  pub mode : Str
  pub role : Str
  pub peers : List Str
  pub write_quorum : ℤ  -- int
  pub read_quorum : ℤ  -- int
  pub write_delay : ℤ  -- time.Duration
  pub read_delay : ℤ  -- time.Duration
  pub sequential : Bool
  pub read_repair : Bool

unfoldable pub is_leader : Config → Bool
is_leader c = str_eq c.mode mode_leaderless || str_eq c.role (bytes "leader")

unfoldable pub cluster_size : Config → ℕ
cluster_size c = length c.peers + 1

-- Which check of `Validate` an invalid configuration fails.
pub data Problem : Type 0 where
  unknown_mode unknown_role write_below_one read_below_one write_too_large read_too_large : Problem

unfoldable pub validate : Config → Option Problem
unfolding cluster_size
validate c =
    if not (str_eq c.mode mode_leader_follower || str_eq c.mode mode_leaderless)
    then some unknown_mode
    else if str_eq c.mode mode_leader_follower
        && (not (str_eq c.role (bytes "leader")) && not (str_eq c.role (bytes "follower")))
    then some unknown_role
    else if ltb_ℤ c.write_quorum (pos 1)
    then some write_below_one
    else if ltb_ℤ c.read_quorum (pos 1)
    then some read_below_one
    else if str_eq c.mode mode_leader_follower && str_eq c.role (bytes "follower")
    then none
    else if ltb_ℤ (pos (cluster_size c)) c.write_quorum
    then some write_too_large
    else if ltb_ℤ (pos (cluster_size c)) c.read_quorum
    then some read_too_large
    else none

-- The two sizes are positive in a valid configuration, where this sum is the int sum.
unfoldable pub quorums_intersect : Config → Bool
unfolding cluster_size
quorums_intersect c =
    ltb_ℤ (pos (cluster_size c)) (pos (pos_part c.write_quorum + pos_part c.read_quorum))
