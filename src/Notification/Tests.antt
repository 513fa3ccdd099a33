-- ===== src/Notification/Tests.antt =====
-- internal/notification on concrete inputs: Redis holds one list, with the moment at which it expires,
-- and a message is encoded as its subject.
use quorum_market.Common.{
  ℕ, ◌+◌, ◌≡◌, refl, subst, Option, none, some, List, [], ◌∷◌, pos, leb, if◌then◌else◌, take, Str,
  bytes, is_empty, arith, Bool-cases, inl, inr,
}
use quorum_market.Httpx.Errors.{ok}
use quorum_market.Events.Toy.{framed, unframed, split-append}
use quorum_market.Notification.{
  Message, Format, Lists, ListsLaws, Service, deliver, push_encoded, executed, pipeline, inbox,
  shown_limit,
}
use quorum_market.Notification.Inbox.{Deliveries, first, next, inbox_shows_newest}

abbrev Held : Type 0
Held = List Str × Option ℕ

abbrev alive : ℕ → Held → List Str
alive now (vs, none) = vs
alive now (vs, some e) = if leb e now then [] else vs

abbrev still : ℕ → Option ℕ → Option ℕ
still now none = none
still now (some e) = if leb e now then none else some e

alive-still : (now : ℕ) (vs : List Str) (e : Option ℕ) → alive now (vs, still now e) ≡ vs
alive-still now vs none = refl
alive-still now vs (some e) = elim (Bool-cases (leb e now)) [
  | inl over ↦ rw over refl
  | inr lasting ↦ ground (arith, lasting)
]

abbrev lists : Lists Held
lists = record {
  push = λ now k v r. (v ∷ alive now r, still now r.1);
  trim = λ now k n r. (take n (alive now r), still now r.1);
  expire = λ now k ttl r. (alive now r, some (now + ttl));
  held = λ now k r. alive now r;
}

lists_laws : ListsLaws lists
lists_laws = record {
  held-push = λ now k v r. alive-still now (v ∷ alive now r) r.1;
  held-trim = λ now k n r. alive-still now (take n (alive now r)) r.1;
  held-expire = λ now at k ttl r p q. ground (arith, q);
}

abbrev message : Str → Message
message subject = record {
  id = bytes "e";
  customer_id = bytes "c";
  order_id = bytes "o";
  channel = bytes "email";
  subject = subject;
  body = [];
  event_type = bytes "order.placed";
  created_at = 1;
}

abbrev encoded : Message → Str
encoded n =
    n.created_at
    ∷ framed n.id (
        framed n.customer_id
          (framed n.order_id (framed n.channel (framed n.subject (framed n.body n.event_type)))))

abbrev decoded : Str → Option Message
decoded [] = none
decoded (at ∷ s) =
    let (id, after_id) = unframed s in
    let (customer_id, after_customer) = unframed after_id in
    let (order_id, after_order) = unframed after_customer in
    let (channel, after_channel) = unframed after_order in
    let (subject, after_subject) = unframed after_channel in
    let (body, event_type) = unframed after_subject in
    some (record {
      id = id;
      customer_id = customer_id;
      order_id = order_id;
      channel = channel;
      subject = subject;
      body = body;
      event_type = event_type;
      created_at = at;
    })

abbrev format : Format ℕ
format = record {
  parse_placed = λ v. none;
  parse_shipped = λ v. none;
  parse_cancelled = λ v. none;
  print_count = λ n. n ∷ [];
  print_price = λ n. n ∷ [];
  encode = λ n. ok (encoded n);
  decode = decoded;
}

decoded-encoded : (n : Message) → decoded (encoded n) ≡ some n
decoded-encoded n = simp split-append

decodes : (n : Message) (v : Str) → format.encode n ≡ ok v → format.decode v ≡ some n
decodes n v h =
    let same : encoded n ≡ v = cc in subst (λ s. decoded s ≡ some n) same (decoded-encoded n)

-- Inboxes of two messages that last 100 nanoseconds.
abbrev service : Service
service = record { inbox_size = 2; inbox_ttl = 100 }

abbrev nothing : Held
nothing = ([], none)

abbrev third_held : Held
third_held = (encoded (message (bytes "3")) ∷ (encoded (message (bytes "2")) ∷ []), some 130)

three :
    Deliveries format decodes lists lists_laws service
      (bytes "c")
      nothing
      (message (bytes "3") ∷ (message (bytes "2") ∷ (message (bytes "1") ∷ [])))
      30
      third_held
unfolding deliver push_encoded executed pipeline is_empty
three =
    next (message (bytes "3")) _ 20 30 _ third_held
      (next (message (bytes "2")) _ 10 20 _ _ (first (message (bytes "1")) 10 _ refl refl)
        (omega arith) (omega arith) refl refl)
      (omega arith) (omega arith) refl refl

inbox_shows_newest_example :
    inbox format lists service 90 none (bytes "c") (pos 0) third_held
    ≡ ok (
        take
          (shown_limit service (pos 0))
          (message (bytes "3") ∷ (message (bytes "2") ∷ (message (bytes "1") ∷ []))))
unfolding is_empty
inbox_shows_newest_example =
    inbox_shows_newest format decodes lists lists_laws service (bytes "c") nothing third_held
      (message (bytes "3") ∷ (message (bytes "2") ∷ (message (bytes "1") ∷ []))) 30 90 (pos 0)
      (λ now. refl) three (omega arith) (omega arith) refl
