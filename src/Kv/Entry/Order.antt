-- ===== src/Kv/Entry/Order.antt =====
-- The order `Newer` of internal/kv/entry.go.
use quorum_market.Common.{
  ◌≡◌, sym, ◌∙◌, inl, inr, true, false, arith, Bool-cases, eqb_ℤ→eq, str_lt_irrefl, str_lt_trans,
  str_lt_total,
}
use quorum_market.Kv.Entry.{Entry, newer}

pub newer_irrefl : (e : Entry) → newer e e ≡ false
unfolding newer
newer_irrefl e = ground (arith, str_lt_irrefl e.origin)

pub newer_trans : (a b c : Entry) → newer a b ≡ true → newer b c ≡ true → newer a c ≡ true
unfolding newer
newer_trans a b c p q = ground (arith, str_lt_trans c.origin b.origin a.origin)

pub newer_asymm : (a b : Entry) → newer a b ≡ true → newer b a ≡ false
newer_asymm a b p = ground (arith, newer_trans a b a, newer_irrefl a)

-- Two entries neither of which is newer carry one version and one origin.
pub newer_total :
    (a b : Entry)
    → newer a b ≡ false
    → newer b a ≡ false
    → (a.version ≡ b.version) × (a.origin ≡ b.origin)
unfolding newer
newer_total a b p q = (
  ground (arith, eqb_ℤ→eq a.version b.version),
  ground (arith, eqb_ℤ→eq a.version b.version, str_lt_total a.origin b.origin),
)

-- What is not newer than a value stays so under a newer value.
pub newer_mono : (a b c : Entry) → newer a b ≡ false → newer c b ≡ true → newer a c ≡ false
newer_mono a b c p q = ground (arith, newer_trans a c b)

newer_same :
    (a b c : Entry) → (b.version ≡ c.version) × (b.origin ≡ c.origin) → newer a b ≡ newer a c
unfolding newer
newer_same a b c h = cc

-- "Not newer" is transitive.
pub newer_neg_trans : (a b c : Entry) → newer a b ≡ false → newer b c ≡ false → newer a c ≡ false
newer_neg_trans a b c p q = elim (Bool-cases (newer c b)) [
  | inl up ↦ newer_mono a b c p up
  | inr level ↦ sym (newer_same a b c (newer_total b c q level)) ∙ p
]
