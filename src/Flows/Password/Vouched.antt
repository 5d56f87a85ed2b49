-- ===== src/Flows/Password/Vouched.antt =====
-- Who vouches for the user of a sign-in.
use open_id_connect_wasi_hub.Prelude.{
  ◌≡◌, ap, sym, ◌∙◌, String, Option, none, some, true, false, arith, inl, inr, Option-cases,
  Bool-cases,
}
use open_id_connect_wasi_hub.Error.{ok}
use open_id_connect_wasi_hub.Models.{User}
use open_id_connect_wasi_hub.Db.Tables.{Db}
use open_id_connect_wasi_hub.Db.Attempt.{>>=-eq-ok}
use open_id_connect_wasi_hub.Flows.Password.Setting.{SignInRequest, SignInHost}
use open_id_connect_wasi_hub.Flows.Password.Credentials.{
  Identified, known_user, directory_user, kerberos_user, with_ticket, without_ticket, local_user,
  has_password, is_valid,
}

module _ (host : SignInHost) (req : SignInRequest) where
  -- Who vouches for the user: the stored hash that the password is verified against, a directory that
  -- is given the password, for a name without a stored hash, or a directory that is given a ticket.
  pub data IsVouched (before after : Db) (who : Identified) : Type 0 where
    by_password :
        (hash : String)
        → req.kerberos_token ≡ none
        → local_user host req who.realm before ≡ some who.user
        → who.user.password_hash ≡ some hash
        → host.verify_password req.password hash ≡ ok true
        → who.federation_amr ≡ none
        → before ≡ after
        → IsVouched before after who
    by_directory :
        (amr : String)
        → req.kerberos_token ≡ none
        → has_password (local_user host req who.realm before) ≡ false
        → host.authenticate_directory who.realm.id req.email req.password before
          ≡ (ok (some (who.user, amr)), after)
        → who.federation_amr ≡ some amr
        → IsVouched before after who
    by_ticket :
        (ticket : String)
        → req.kerberos_token ≡ some ticket
        → host.authenticate_kerberos_directory who.realm.id ticket before
          ≡ (ok (some who.user), after)
        → who.federation_amr ≡ some "kerberos"
        → IsVouched before after who

  has_hash :
      (user : User)
      → is_valid host req user none ≡ ok true
      → (hash : String) × (user.password_hash ≡ some hash)
        × (host.verify_password req.password hash ≡ ok true)
  unfolding is_valid
  has_hash user h = elim (Option-cases user.password_hash) [
    | inl absent ↦ absurd (ground (arith, rw (is_valid, absent) at h))
    | inr (hash, there) ↦ (hash, there, rw (is_valid, there) at h)
  ]

  known_user-IsVouched :
      (before after : Db) (who : Identified)
      → req.kerberos_token ≡ none
      → known_user (local_user host req who.realm before) ≡ ok (who.user, who.federation_amr)
      → before ≡ after
      → is_valid host req who.user who.federation_amr ≡ ok true
      → IsVouched before after who
  unfolding known_user
  known_user-IsVouched before after who plain h same_tables valid =
      elim (Option-cases (local_user host req who.realm before)) [
        | inl absent ↦ absurd (ground (arith, absent, h))
        | inr (u, found) ↦
            let known : known_user (some u) ≡ ok (who.user, who.federation_amr) =
              sym (ap known_user found) ∙ h in
            let same : u ≡ who.user = ground (arith, known) in
            let local : who.federation_amr ≡ none = ground (arith, known) in
            let (hash, there, verified) =
              has_hash who.user (sym (ap (is_valid host req who.user) local) ∙ valid) in
            by_password hash plain (found ∙ ap some same) there verified local same_tables
      ]

  directory_user-IsVouched :
      (found : Option (User × String)) (before mid after : Db) (who : Identified)
      → req.kerberos_token ≡ none
      → has_password (local_user host req who.realm before) ≡ false
      → host.authenticate_directory who.realm.id req.email req.password before ≡ (ok found, mid)
      → directory_user found ≡ ok (who.user, who.federation_amr)
      → mid ≡ after
      → IsVouched before after who
  unfolding directory_user
  directory_user-IsVouched none before mid after who plain unset e h same_tables =
      absurd (ground (arith, h))
  directory_user-IsVouched (some (u, amr)) before mid after who plain unset e h same_tables =
      let same : u ≡ who.user = ground (arith, h) in
      let by : some amr ≡ who.federation_amr = ground (arith, h) in
      by_directory amr plain unset (e ∙ (λ i. (ok (some (same i, amr)), same_tables i))) (sym by)

  kerberos_user-IsVouched :
      (found : Option User) (ticket : String) (before mid after : Db) (who : Identified)
      → req.kerberos_token ≡ some ticket
      → host.authenticate_kerberos_directory who.realm.id ticket before ≡ (ok found, mid)
      → kerberos_user found ≡ ok (who.user, who.federation_amr)
      → mid ≡ after
      → IsVouched before after who
  unfolding kerberos_user
  kerberos_user-IsVouched none ticket before mid after who given e h same_tables =
      absurd (ground (arith, h))
  kerberos_user-IsVouched (some u) ticket before mid after who given e h same_tables =
      let same : u ≡ who.user = ground (arith, h) in
      let by : some "kerberos" ≡ who.federation_amr = ground (arith, h) in
      by_ticket ticket given (e ∙ (λ i. (ok (some (same i)), same_tables i))) (sym by)

  pub with_ticket-IsVouched :
      (given : Option String) (before after : Db) (who : Identified)
      → req.kerberos_token ≡ given
      → with_ticket host req who.realm given before ≡ (ok (who.user, who.federation_amr), after)
      → is_valid host req who.user who.federation_amr ≡ ok true
      → IsVouched before after who
  unfolding with_ticket without_ticket
  with_ticket-IsVouched none before after who plain h valid =
      elim (Bool-cases (has_password (local_user host req who.realm before))) [
        | inl set ↦
            let h = rw (with_ticket, without_ticket, set) at h in
            known_user-IsVouched before after who plain (ap (λ p. p.0) h) (ap (λ p. p.1) h) valid
        | inr unset ↦
            let h = rw (with_ticket, without_ticket, unset) at h in
            let (found, mid, e, h) =
              >>=-eq-ok (host.authenticate_directory who.realm.id req.email req.password) _ before
                after h in
            directory_user-IsVouched found before mid after who plain unset e (ap (λ p. p.0) h)
              (ap (λ p. p.1) h)
      ]
  with_ticket-IsVouched (some ticket) before after who given h valid =
      let (found, mid, e, h) =
        >>=-eq-ok (host.authenticate_kerberos_directory who.realm.id ticket) _ before after h in
      kerberos_user-IsVouched found ticket before mid after who given e (ap (λ p. p.0) h)
        (ap (λ p. p.1) h)
