-- ===== src/Gateway/Tests.antt =====
-- internal/gateway on concrete inputs.
use quorum_market.Common.{◌≡◌, ◌⊎◌, refl, true, [], str_eq, lookup, delete, insert, keep, is_empty}
use quorum_market.Auth.{Claims, verify, bearer_token}
use quorum_market.Auth.Toy.{toy_parse}
use quorum_market.RateLimit.{allow}
use quorum_market.Gateway.{handle_request, strip, authenticate}
use quorum_market.Gateway.Toy.{config, carts, moment, spoofed, passed_on}
use quorum_market.Gateway.Headers.{Verified, Names, IsAnonymous, forwarded_identity}

forwarded_identity_example :
    ((c : Claims) × Verified config moment.now spoofed.headers c × Names c passed_on)
    ⊎ (IsAnonymous passed_on × (carts.is_public ≡ true))
unfolding handle_request authenticate bearer_token lookup strip delete str_eq is_empty verify
    toy_parse insert allow keep
forwarded_identity_example = forwarded_identity config carts moment spoofed [] passed_on refl
