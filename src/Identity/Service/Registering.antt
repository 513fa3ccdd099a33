-- ===== src/Identity/Service/Registering.antt =====
-- internal/identity/identity.go: Register.
use quorum_market.Common.{Option, none, some, if◌then◌else◌, Str}
use quorum_market.Httpx.Errors.{Error, errorf, wrap, plain, Result, ok, err}
use quorum_market.Identity.Stores.{User}
use quorum_market.Identity.Credentials.{normalize_email, validate_password}
use quorum_market.Identity.Service.{
  Tokens, Faults, Draw, Service, Stores, email_key, unavailable, lookup_by_email, save_user,
  issue_tokens, new_user,
}

module _ {D S : Type 0} (s : Service D S) where
  -- `Register` once the account is saved: the index, and the tokens.
  unfoldable pub index_user :
      Faults → Draw → User → Stores D S → Option Error × D → Result Tokens × Stores D S
  unfolding issue_tokens unavailable
  index_user f draw u w (some e, d) = (err e, record w { accounts = d })
  index_user f draw u w (none, d) =
      if f.index_put
      then (err unavailable, record w { accounts = d })
      else issue_tokens s f.refresh_set draw u
          (record w { accounts = s.db.put (email_key u.email) u.customer_id d })

  unfoldable pub create_user :
      Faults → Draw → Str → Stores D S → Option Str → Result Tokens × Stores D S
  unfolding index_user save_user
  create_user f draw email w none = (err (wrap 500 plain), w)
  create_user f draw email w (some h) =
      let u = new_user s draw email h in index_user f draw u w (save_user s f.user_put u w.accounts)

  unfoldable pub register_new :
      Faults → Draw → Str → Str → Stores D S → Result (Option User) → Result Tokens × Stores D S
  unfolding create_user
  register_new f draw email password w (err e) = (err e, w)
  register_new f draw email password w (ok (some u)) = (err (errorf 409), w)
  register_new f draw email password w (ok none) = create_user f draw email w (s.lib.hash password)

  unfoldable pub register_checked :
      Faults → Draw → Str → Stores D S → Result Str → Option Error → Result Tokens × Stores D S
  unfolding register_new lookup_by_email
  register_checked f draw password w (err e) weak = (err e, w)
  register_checked f draw password w (ok email) (some e) = (err e, w)
  register_checked f draw password w (ok email) none =
      register_new f draw email password w (lookup_by_email s f email w.accounts)

  unfoldable pub register : Faults → Draw → Str → Str → Stores D S → Result Tokens × Stores D S
  unfolding register_checked normalize_email validate_password
  register f draw email password w =
      register_checked f draw password w (normalize_email s.lib.fold_case email)
        (validate_password password)
