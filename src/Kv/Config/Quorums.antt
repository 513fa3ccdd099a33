-- ===== src/Kv/Config/Quorums.antt =====
-- What `Validate` of internal/kv/config.go checks.
use quorum_market.Common.{◌≡◌, ◌⊎◌, ◌↔◌, none, arith, pos, ◌≤ℤ◌, bytes, str_eq_iff}
use quorum_market.Kv.Config.{Config, mode_leader_follower, mode_leaderless, cluster_size, validate}

abbrev pub IsFollower : Config → Type 0
IsFollower c = (c.mode ≡ mode_leader_follower) × (c.role ≡ bytes "follower")

-- A node that coordinates writes can gather both of its quorums in its cluster.
pub record IsUsable (c : Config) : Type 0 where
  pub known_mode : (c.mode ≡ mode_leader_follower) ⊎ (c.mode ≡ mode_leaderless)
  pub known_role :
      (c.mode ≡ mode_leaderless) ⊎ ((c.role ≡ bytes "leader") ⊎ (c.role ≡ bytes "follower"))
  pub write_positive : pos 1 ≤ℤ c.write_quorum
  pub read_positive : pos 1 ≤ℤ c.read_quorum
  pub write_fits : IsFollower c ⊎ (c.write_quorum ≤ℤ pos (cluster_size c))
  pub read_fits : IsFollower c ⊎ (c.read_quorum ≤ℤ pos (cluster_size c))

-- `Validate` accepts exactly the configurations whose mode and role are known, whose quorum sizes
-- are positive and, unless the node is a follower, within the cluster's size.
pub validate_iff : (c : Config) → (validate c ≡ none) ↔ IsUsable c
unfolding validate
validate_iff c = (
  λ h. ground (
    arith,
    str_eq_iff c.mode mode_leader_follower,
    str_eq_iff c.mode mode_leaderless,
    str_eq_iff c.role (bytes "leader"),
    str_eq_iff c.role (bytes "follower"),
  ),
  λ h. ground (
    arith,
    str_eq_iff c.mode mode_leader_follower,
    str_eq_iff c.mode mode_leaderless,
    str_eq_iff c.role (bytes "leader"),
    str_eq_iff c.role (bytes "follower"),
  ),
)
