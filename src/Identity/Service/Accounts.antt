-- ===== src/Identity/Service/Accounts.antt =====
-- The accounts of internal/identity/identity.go: a registration, and the logins after it.
use quorum_market.Common.{
  ◌≡◌, ◌≢◌, ◌⊎◌, refl, sym, ap, inl, inr, Bool, true, false, Option, none, some, arith, Str,
  is_empty, Bool-cases, Option-cases,
}
use quorum_market.Httpx.Errors.{Error, errorf, Result, ok, err, Result-cases}
use quorum_market.Auth.{issue}
use quorum_market.Identity.Stores.{DbLaws, User, LibraryLaws}
use quorum_market.Identity.Credentials.{normalize_email, validate_password}
use quorum_market.Identity.Service.{
  Service, Stores, Draw, Faults, no_faults, Tokens, profile_of, issue_tokens, lookup_by_email,
  load_user, new_user, new_session_id, user_key, email_key, save_user,
}
use quorum_market.Identity.Service.Registering.{
  register, create_user, index_user, register_checked, register_new,
}
use quorum_market.Identity.Service.Access.{login, login_checked, login_found}

keys_differ : (email id : Str) → email_key email ≢ user_key id
keys_differ email id h = ground (arith, h)

ok_injective : {A : Type 0} (x y : A) → Result.ok x ≡ ok y → x ≡ y
ok_injective x y h = cc

module _ {D S : Type 0} (s : Service D S) where
  issue_tokens_keeps :
      (fails : Bool) (draw : Draw) (u : User) (w : Stores D S) (t : Tokens)
      → (issue_tokens s fails draw u w).0 ≡ ok t
      → (t.profile ≡ profile_of u) × ((issue_tokens s fails draw u w).1.accounts ≡ w.accounts)
  unfolding issue_tokens
  issue_tokens_keeps fails draw u w t h =
      elim (Result-cases (
        issue s.jwt draw.now s.signer u.customer_id u.email u.roles
          (new_session_id draw.session))) [
            | inr (e, bad) ↦ absurd (ground (arith, bad, h))
            | inl (out, good) ↦ elim (Bool-cases fails) [
              | inl down ↦ absurd (ground (arith, good, down, h))
              | inr up ↦
                  let same = ok_injective _ t (rw (good, up) at h) in
                  (sym (ap (λ x. x.profile) same), ground (arith, good, up))
            ]
          ]

  abbrev filed : Str → User → D → D
  filed address u d =
      s.db.put (email_key address) u.customer_id
        (s.db.put (user_key u.customer_id) (s.lib.encode u) d)

  create_user_ok :
      (f : Faults) (draw : Draw) (address : Str) (w : Stores D S) (hash : Option Str) (t : Tokens)
      → (create_user s f draw address w hash).0 ≡ ok t
      → (h : Str) × (hash ≡ some h)
        × (t.profile ≡ profile_of (new_user s draw address h))
        × ((create_user s f draw address w hash).1.accounts
            ≡ filed address (new_user s draw address h) w.accounts)
  unfolding create_user index_user save_user
  create_user_ok f draw address w none t e = cc
  create_user_ok f draw address w (some h) t e = elim (Bool-cases f.user_put) [
    | inl down ↦ absurd (ground (arith, down, e))
    | inr up ↦ elim (Bool-cases f.index_put) [
      | inl down ↦ absurd (ground (arith, up, down, e))
      | inr indexed ↦
          let u = new_user s draw address h in
          let w' : Stores D S = record w { accounts = filed address u w.accounts } in
          let (shown, kept) =
            issue_tokens_keeps f.refresh_set draw u w' t (rw (up, indexed) at e) in
          (h, refl, shown, rw (up, indexed) kept)
    ]
  ]

  -- What a registration that succeeds has done.
  register_ok :
      (f : Faults) (draw : Draw) (email password : Str) (w : Stores D S) (t : Tokens)
      → (register s f draw email password w).0 ≡ ok t
      → (address h : Str) × (normalize_email s.lib.fold_case email ≡ ok address)
        × (s.lib.hash password ≡ some h)
        × (t.profile ≡ profile_of (new_user s draw address h))
        × ((register s f draw email password w).1.accounts
            ≡ filed address (new_user s draw address h) w.accounts)
  unfolding register register_checked register_new
  register_ok f draw email password w t e =
      elim (Result-cases (normalize_email s.lib.fold_case email)) [
        | inr (bad, invalid) ↦ absurd (ground (arith, invalid, e))
        | inl (address, norm) ↦ elim (Option-cases (validate_password password)) [
          | inr (bad, weak) ↦ absurd (ground (arith, norm, weak, e))
          | inl strong ↦ elim (Result-cases (lookup_by_email s f address w.accounts)) [
            | inr (bad, down) ↦ absurd (ground (arith, norm, strong, down, e))
            | inl (some u, taken) ↦ absurd (ground (arith, norm, strong, taken, e))
            | inl (none, free) ↦
                let (h, hashed, shown, kept) =
                  create_user_ok f draw address w (s.lib.hash password) t
                    (rw (norm, strong, free) at e) in
                (address, h, norm, hashed, shown, rw (norm, strong, free) kept)
          ]
        ]
      ]

  -- An account that is filed is found by its email address.
  lookup-filed :
      (f : Faults) (draw : Draw) (address h : Str) (d : D)
      → DbLaws s.db
      → LibraryLaws s.lib
      → lookup_by_email s no_faults address (filed address (new_user s draw address h) d)
        ≡ ok (some (new_user s draw address h))
  unfolding lookup_by_email load_user is_empty
  lookup-filed f draw address h d db lib =
      let u = new_user s draw address h in
      let d' = s.db.put (user_key u.customer_id) (s.lib.encode u) d in
      rw
        (
          db.get-put (email_key address) u.customer_id d',
          db.get-put_other (email_key address) (user_key u.customer_id) u.customer_id d'
              (keys_differ address u.customer_id),
          db.get-put (user_key u.customer_id) (s.lib.encode u) d,
          lib.decode-encode u,
        )
        refl

  -- After a registration that succeeds, a login with an address that normalizes to the same one and
  -- with the same password, to stores that answer, is granted to the account that was registered.
  pub login_after_register :
      (f : Faults) (draw later : Draw) (email other password : Str) (w : Stores D S) (t : Tokens)
      → DbLaws s.db
      → LibraryLaws s.lib
      → (register s f draw email password w).0 ≡ ok t
      → normalize_email s.lib.fold_case other ≡ normalize_email s.lib.fold_case email
      → let w' = (register s f draw email password w).1 in
        (u : User) × (profile_of u ≡ t.profile)
        × (login s no_faults later other password w' ≡ issue_tokens s false later u w')
  unfolding login login_checked login_found
  login_after_register f draw later email other password w t db lib granted same =
      let (address, h, norm, hashed, shown, kept) = register_ok f draw email password w t granted in
      let u = new_user s draw address h in
      let found = lookup-filed f draw address h w.accounts db lib in
      let right = lib.matches-hash password h hashed in
      (u, sym shown, rw (same, norm, kept, found, right) refl)

  -- Every account that is stored can be decoded.
  abbrev pub IsReadable : D → Type 0
  IsReadable d = (id raw : Str) → s.db.get (user_key id) d ≡ some raw → s.lib.decode raw ≢ none

  load_answers : (id : Str) (d : D) (e : Error) → IsReadable d → load_user s false id d ≢ err e
  unfolding load_user
  load_answers id d e readable h = elim (Bool-cases (is_empty id)) [
    | inl blank ↦ ground (arith, blank, h)
    | inr named ↦ elim (Option-cases (s.db.get (user_key id) d)) [
      | inl absent ↦ ground (arith, named, absent, h)
      | inr (raw, found) ↦ elim (Option-cases (s.lib.decode raw)) [
        | inl garbled ↦ readable id raw found garbled
        | inr (u, clear) ↦ ground (arith, named, found, clear, h)
      ]
    ]
  ]

  lookup_answers :
      (address : Str) (d : D) (e : Error)
      → IsReadable d
      → lookup_by_email s no_faults address d ≢ err e
  unfolding lookup_by_email
  lookup_answers address d e readable h = elim (Option-cases (s.db.get (email_key address) d)) [
    | inl absent ↦ ground (arith, absent, h)
    | inr (id, found) ↦ load_answers id d e readable (rw found at h)
  ]

  -- A login to stores that answer, with readable accounts, is granted to an account whose password
  -- matches, or it fails with 401 and changes nothing: an address that is not valid, an account that
  -- does not exist and a wrong password are told apart by nothing.
  pub login_outcomes :
      (draw : Draw) (email password : Str) (w : Stores D S)
      → IsReadable w.accounts
      → ((u : User) × (s.lib.matches u.password_hash password ≡ true)
          × (login s no_faults draw email password w ≡ issue_tokens s false draw u w))
        ⊎ (login s no_faults draw email password w ≡ (err (errorf 401), w))
  unfolding login login_checked login_found
  login_outcomes draw email password w readable =
      elim (Result-cases (normalize_email s.lib.fold_case email)) [
        | inr (e, invalid) ↦ inr (ground (arith, invalid))
        | inl (address, norm) ↦
            elim (Result-cases (lookup_by_email s no_faults address w.accounts)) [
              | inr (e, down) ↦ absurd (lookup_answers address w.accounts e readable down)
              | inl (none, free) ↦ inr (ground (arith, norm, free))
              | inl (some u, found) ↦ elim (Bool-cases (s.lib.matches u.password_hash password)) [
                | inl right ↦ inl (u, right, ground (arith, norm, found, right))
                | inr wrong ↦ inr (ground (arith, norm, found, wrong))
              ]
            ]
      ]
