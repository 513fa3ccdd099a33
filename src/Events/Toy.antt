-- ===== src/Events/Toy.antt =====
-- For the tests: an encoding in which each text stands behind its length.
use quorum_market.Common.{
  ℕ, zero, suc, ◌≡◌, refl, ap, subst, Option, none, some, [], ◌∷◌, ◌++◌, Str, length,
}
use quorum_market.Httpx.Errors.{ok}
use quorum_market.Events.{Envelope, Codec, CodecLaws}

abbrev pub split : ℕ → Str → Str × Str
split zero s = ([], s)
split (suc n) [] = ([], [])
split (suc n) (c ∷ s) = let (front, rest) = split n s in (c ∷ front, rest)

pub split-append : (x s : Str) → split (length x) (x ++ s) ≡ (x, s)
split-append [] s = refl
split-append (c ∷ x) s = ap (λ p. (c ∷ p.0, p.1)) (split-append x s)

abbrev pub framed : Str → Str → Str
framed x s = length x ∷ (x ++ s)

abbrev pub unframed : Str → Str × Str
unframed [] = ([], [])
unframed (n ∷ s) = split n s

abbrev encoded : Envelope → Str
encoded e =
    e.occurred_at
    ∷ framed e.id (
        framed e.event_type
          (framed e.correlation_id (framed e.order_id (framed e.customer_id e.payload))))

abbrev decoded : Str → Option Envelope
decoded [] = none
decoded (at ∷ s) =
    let (id, after_id) = unframed s in
    let (event_type, after_type) = unframed after_id in
    let (correlation_id, after_correlation) = unframed after_type in
    let (order_id, after_order) = unframed after_correlation in
    let (customer_id, payload) = unframed after_order in
    some (record {
      id = id;
      event_type = event_type;
      occurred_at = at;
      correlation_id = correlation_id;
      order_id = order_id;
      customer_id = customer_id;
      payload = payload;
    })

abbrev pub toy_codec : Codec
toy_codec = record { encode = λ e. ok (encoded e); decode = decoded }

decoded-encoded : (e : Envelope) → decoded (encoded e) ≡ some e
decoded-encoded e = simp split-append

pub toy_codec_laws : CodecLaws toy_codec
toy_codec_laws = record {
  decode-encode = λ e v h.
      let same : encoded e ≡ v = cc in subst (λ s. decoded s ≡ some e) same (decoded-encoded e);
}
