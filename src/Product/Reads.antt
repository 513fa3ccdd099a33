-- ===== src/Product/Reads.antt =====
-- What reads of internal/product/product.go return after a write.
use quorum_market.Common.{
  Bool-cases, subst, ◌≡◌, refl, false, ◌||◌, Option, none, Str, is_empty, Assoc, insert,
  lookup-insert, str_eq_refl, arith, Option-cases, inl, inr,
}
use quorum_market.Httpx.Errors.{ok, Result-cases}
use quorum_market.Cart.Service.{Product}
use quorum_market.Cache.{
  Redis, RedisLaws, Spread, Cache, found, Call, Ending, get_or_load, invalidate,
}
use quorum_market.Cache.Dropped.{loads_dropped}
use quorum_market.Product.{
  Codec, CodecLaws, Catalogue, Faults, load, shown, decoded, load_found, get_product, put_product,
  put_encoded, product_key,
}

module _ {F D R : Type 0} (codec : Codec F) (codec_laws : CodecLaws codec) (spread : Spread D)
    (redis : Redis R) (laws : RedisLaws redis) (cache : Option (Cache D)) where
  -- A write that succeeds.
  record Written (faults : Faults) (p : Product F) (s s' : Catalogue R) : Type 0 where
    raw : Str
    encoded : codec.encode p ≡ ok raw
    named : is_empty p.product_id ≡ false
    written : insert (product_key p.product_id) raw s.db ≡ s'.db
    dropped : invalidate spread redis cache faults.del_fails p.product_id s.redis ≡ s'.redis

  put_product-Written :
      (faults : Faults) (p : Product F) (s s' : Catalogue R)
      → put_product codec spread redis cache faults p s ≡ (none, s')
      → Written faults p s s'
  unfolding put_product put_encoded
  put_product-Written faults p s s' h = elim (Bool-cases (is_empty p.product_id)) [
    | inl e ↦ absurd (ground (arith, e, h))
    | inr named ↦ elim (Bool-cases (codec.is_negative p.weight || codec.is_negative p.price)) [
      | inl e ↦ absurd (ground (arith, e, named, h))
      | inr fine ↦ elim (Result-cases (codec.encode p)) [
        | inr (e, q) ↦ absurd (ground (arith, fine, named, q, h))
        | inl (raw, q) ↦ elim (Option-cases faults.put_error) [
          | inr (e, r) ↦ absurd (ground (arith, fine, named, q, r, h))
          | inl r ↦ record {
            raw = raw;
            encoded = q;
            named = named;
            written = ground (arith, fine, named, q, r, h);
            dropped = ground (arith, fine, named, q, r, h);
          }
        ]
      ]
    ]
  ]

  loads_written :
      (faults : Faults) (id raw : Str) (db : Assoc Str)
      → faults.get_error ≡ none
      → load faults id (insert (product_key id) raw db) ≡ found raw
  unfolding load load_found
  loads_written faults id raw db h = ground (
    arith,
    h,
    lookup-insert (product_key id) (product_key id) raw db,
    str_eq_refl (product_key id),
  )

  -- A read that follows a successful write of a product, with no other call on the product in between
  -- and none begun before the write that is still in flight, returns what was written, whatever Redis
  -- held before and whether or not there is a cache: if the write drops the cached value, the read's
  -- query is answered and its caller has not hung up. JSON decodes what it encoded.
  pub read_after_put :
      (faults reading : Faults) (p : Product F) (s s' : Catalogue R) (call : Call)
      (ending : Ending D)
      → put_product codec spread redis cache faults p s ≡ (none, s')
      → faults.del_fails ≡ false
      → reading.get_error ≡ none
      → call.is_cancelled ≡ false
      → (get_product codec spread redis cache reading call ending p.product_id s').0 ≡ ok p
  unfolding get_product shown decoded
  read_after_put faults reading p s s' call ending h drops answers waits =
      let w = put_product-Written faults p s s' h in
      let id = p.product_id in
      let loaded : load reading id s'.db ≡ found w.raw =
        subst (λ db. load reading id db ≡ found w.raw) w.written
          (loads_written reading id w.raw s.db answers) in
      let dropped : invalidate spread redis cache false id s.redis ≡ s'.redis =
        subst (λ b. invalidate spread redis cache b id s.redis ≡ s'.redis) drops w.dropped in
      let a : (get_or_load spread redis cache call ending id (found w.raw) s'.redis).0
          ≡ found w.raw =
        subst (λ r. (get_or_load spread redis cache call ending id (found w.raw) r).0 ≡ found w.raw)
          dropped
          (loads_dropped spread redis laws cache call ending id (found w.raw) s.redis waits) in
      let d : codec.decode w.raw ≡ ok p = codec_laws.decode-encode p w.raw w.encoded in
      rw (w.named, loaded, a, d) refl
