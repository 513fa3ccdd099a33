-- ===== src/Product.antt =====
-- internal/product/product.go and server.go: the catalogue over the key-value cluster, in front of an
-- optional cache. The cluster is a map with a time at which it holds what; JSON and Redis are
-- parameters. Calls run one after another: a read always runs its own query, and shares none that is in
-- flight. The simulated delay is left out.
pub mod Reads
mod Tests
use quorum_market.Common.{
  ◌≡◌, ℕ, Bool, true, false, not, ◌||◌, ◌++◌, Option, none, some, if◌then◌else◌, Str, bytes,
  is_empty, Assoc, lookup, insert,
}
use quorum_market.Httpx.Errors.{Error, errorf, wrap, Result, ok, err}
use quorum_market.Cart.Service.{Product}
use quorum_market.Cache.{
  Redis, Spread, Cache, Answer, found, absent, broken, Call, Ending, get_or_load, invalidate,
}

abbrev pub key_prefix : Str
key_prefix = bytes "product:"

-- `Key`
unfoldable pub product_key : Str → Str
product_key product_id = key_prefix ++ product_id

-- float64 below zero, and JSON of a product; `encode` fails with an error.
pub record Codec (F : Type 0) : Type 0 where
  pub is_negative : F → Bool
  pub encode : Product F → Result Str
  pub decode : Str → Result (Product F)

-- What is decoded is what was encoded.
pub record CodecLaws {F : Type 0} (codec : Codec F) : Type 0 where
  pub decode-encode : (p : Product F) (v : Str) → codec.encode p ≡ ok v → codec.decode v ≡ ok p

-- The database and Redis.
pub record Catalogue (R : Type 0) : Type 0 where
  pub db : Assoc Str
  pub redis : R

pub record Faults : Type 0 where
  pub get_error : Option Error
  pub put_error : Option Error
  pub del_fails : Bool

load_found : Option Str → Answer
load_found none = absent
load_found (some v) = found v

-- `load`
unfoldable pub load : Faults → Str → Assoc Str → Answer
unfolding load_found product_key
load faults product_id db = elim faults.get_error [
  | some e ↦ broken (wrap 503 e)
  | none ↦ load_found (lookup (product_key product_id) db)
]

module _ {F D R : Type 0} (codec : Codec F) (spread : Spread D) (redis : Redis R)
    (cache : Option (Cache D)) where
  decoded : Str → Result (Product F) → Result (Product F)
  decoded product_id (err e) = err (wrap 500 e)
  decoded product_id (ok p) = ok (record p { product_id = product_id })

  unfoldable pub shown : Str → Answer → Result (Product F)
  unfolding decoded
  shown product_id (found raw) = decoded product_id (codec.decode raw)
  shown product_id absent = err (errorf 404)
  shown product_id (broken e) = err e

  -- `Get`
  unfoldable pub get_product :
      Faults → Call → Ending D → Str → Catalogue R → Result (Product F) × Catalogue R
  unfolding load shown get_or_load
  get_product faults call ending product_id s =
      if is_empty product_id
      then (err (errorf 400), s)
      else let (a, r) =
          get_or_load spread redis cache call ending product_id (load faults product_id s.db)
            s.redis in
        (shown product_id a, record s { redis = r })

  put_encoded : Faults → Str → Result Str → Catalogue R → Option Error × Catalogue R
  unfolding product_key invalidate
  put_encoded faults product_id (err e) s = (some (wrap 500 e), s)
  put_encoded faults product_id (ok raw) s = elim faults.put_error [
    | some e ↦ (some (wrap 503 e), s)
    | none ↦ (
      none,
      record {
        db = insert (product_key product_id) raw s.db;
        redis = invalidate spread redis cache faults.del_fails product_id s.redis;
      },
    )
  ]

  -- `Put`
  unfoldable pub put_product : Faults → Product F → Catalogue R → Option Error × Catalogue R
  unfolding put_encoded
  put_product faults p s =
      if is_empty p.product_id
      then (some (errorf 400), s)
      else if codec.is_negative p.weight || codec.is_negative p.price
      then (some (errorf 400), s)
      else put_encoded faults p.product_id (codec.encode p) s

  -- `handlePut`, once the body has been decoded: the path names the product.
  unfoldable pub handle_put :
      Faults → Str → Product F → Catalogue R → Result (Product F) × Catalogue R
  unfolding put_product
  handle_put faults path_id body s =
      let p = record body { product_id = path_id } in
      let (e, s') = put_product faults p s in (elim e [ none ↦ ok p | some e ↦ err e ], s')
