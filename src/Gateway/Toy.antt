-- ===== src/Gateway/Toy.antt =====
-- For the tests: a gateway with one token library, a route, and a request that claims to be another
-- customer, with the headers that it is forwarded with.
use quorum_market.Common.{
  refl, true, false, some, [], ◌∷◌, Str, bytes, Assoc, str_eq, delete, lookup-delete, if◌then◌else◌,
  Bool-cases, inl, inr,
}
use quorum_market.Auth.Toy.{toy, verifier}
use quorum_market.Gateway.{
  Config, Route, Request, Moment, customer_id_header, customer_email_header, customer_roles_header,
  header_of,
}
use quorum_market.Gateway.Proxy.{ReverseProxy, RemovesNamed, connection_header}

abbrev pub config : Config
config = record {
  jwt = toy;
  verifier = some verifier;
  limits = record {
    scope = bytes "gateway";
    prefix = [];
    limit = 10;
    window = 60_000_000_000;
    fail_open = true;
  };
  has_limiter = true;
  trim_space = λ s. s;
  split_host = λ s. some s;
}

abbrev pub carts : Route
carts = record {
  prefix = bytes "/shopping-cart";
  upstream = [];
  is_public = false;
  name = bytes "cart";
}

abbrev pub moment : Moment
moment = record { now = 1_500_000_000_000; redis_now = 0; is_up = true; member = bytes "m" }

-- The client claims to be another customer.
abbrev pub spoofed : Request
spoofed = record {
  headers =
      (bytes "Authorization", bytes "bearer token-1") ∷ ((customer_id_header, bytes "cust-9") ∷ []);
  remote_addr = bytes "10.0.0.1:80";
}

abbrev pub passed_on : Assoc Str
passed_on =
    (bytes "Authorization", bytes "bearer token-1")
    ∷ ((customer_id_header, bytes "cust-1")
        ∷ ((customer_email_header, bytes "a@b") ∷ ((customer_roles_header, bytes "customer") ∷ [])))

-- A proxy that only takes off the customer header, where it is all that the Connection header names.
abbrev pub proxy : ReverseProxy
proxy = record {
  outbound = λ headers.
      if str_eq (header_of connection_header headers) customer_id_header
      then delete customer_id_header headers
      else headers;
  names = str_eq;
}

pub proxy-RemovesNamed : RemovesNamed proxy
unfolding str_eq
proxy-RemovesNamed headers =
    elim (Bool-cases (str_eq (header_of connection_header headers) customer_id_header)) [
      | inl it_does ↦ rw it_does (simp lookup-delete)
      | inr not_so ↦ rw not_so refl
    ]
