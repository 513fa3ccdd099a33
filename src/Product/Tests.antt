-- ===== src/Product/Tests.antt =====
-- internal/product/product.go on concrete inputs: prices are whole numbers, and the encoding knows one
-- product.
use quorum_market.Common.{
  ℕ, ◌≡◌, refl, false, none, some, [], ◌∷◌, Str, bytes, is_empty, str_eq, str_eq→eq, Assoc, insert,
  if◌then◌else◌, arith, Bool-cases, inl, inr, delete,
}
use quorum_market.Httpx.Errors.{plain, Result, ok, err}
use quorum_market.Cart.Service.{Product}
use quorum_market.Cache.{invalidate}
use quorum_market.Cache.Toy.{toy_redis, toy_redis_laws, toy_spread, toy_cache}
use quorum_market.Product.{
  Codec, CodecLaws, Catalogue, Faults, get_product, put_product, put_encoded, product_key,
}
use quorum_market.Product.Reads.{read_after_put}

abbrev tea_id : Str
tea_id = bytes "tea"

abbrev read_tea : Str → Result (Product ℕ)
read_tea [] = err plain
read_tea (w ∷ []) = err plain
read_tea (w ∷ (p ∷ name)) = ok (record { product_id = tea_id; name = name; weight = w; price = p })

abbrev codec : Codec ℕ
codec = record {
  is_negative = λ f. false;
  encode =
      λ p. if str_eq p.product_id tea_id then ok (p.weight ∷ (p.price ∷ p.name)) else err plain;
  decode = read_tea;
}

codec_laws : CodecLaws codec
codec_laws = record {
  decode-encode = λ p v h. elim (Bool-cases (str_eq p.product_id tea_id)) [
    | inl e ↦ ground (arith, str_eq→eq p.product_id tea_id e, h, e)
    | inr e ↦ absurd (ground (arith, e, h))
  ];
}

abbrev tea : Product ℕ
tea = record { product_id = tea_id; name = bytes "Tea"; weight = 5; price = 300 }

abbrev healthy : Faults
healthy = record { get_error = none; put_error = none; del_fails = false }

-- An absence is cached when the product is written.
abbrev before : Catalogue (Assoc (Str × ℕ))
before = record {
  db = [];
  redis = insert (bytes "product:tea") (0 ∷ bytes "__absent__", 30_000_000_000) [];
}

abbrev after : Catalogue (Assoc (Str × ℕ))
after = record { db = insert (bytes "product:tea") (5 ∷ (300 ∷ bytes "Tea")) []; redis = [] }

read_after_put_example :
    (get_product codec toy_spread toy_redis
      (some toy_cache)
      healthy
      (record { asked_at = 100; get_fails = false; is_cancelled = false })
      (record { ended_at = 101; set_fails = false; draw = 0 })
      tea_id
      after).0
    ≡ ok tea
unfolding put_product put_encoded product_key invalidate is_empty str_eq delete insert
read_after_put_example =
    read_after_put codec codec_laws toy_spread toy_redis toy_redis_laws (some toy_cache) healthy
      healthy tea before after (record { asked_at = 100; get_fails = false; is_cancelled = false })
      (record { ended_at = 101; set_fails = false; draw = 0 }) refl refl refl refl
