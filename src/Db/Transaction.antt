-- ===== src/Db/Transaction.antt =====
-- `with_transaction!` of crates/oidc-repository/src/connection.rs. A connection's own faults are the
-- results of `connect`, `begin` and `commit`; a failed commit is taken to leave the tables as they
-- were. Rollback cannot fail the caller: the source drops its result.
use open_id_connect_wasi_hub.Prelude.{◌≡◌, refl, inl, inr, arith}
use open_id_connect_wasi_hub.Error.{Result, ok, err, OidcError, Result-cases}

pub record Link : Type 0 where
  pub connect : Result (Unit {0})
  pub begin : Result (Unit {0})
  pub commit : Result (Unit {0})

-- The result of the caller, and the tables after it.
module _ {S A : Type 0} where
  abbrev pub commit_with : Result (Unit {0}) → S → Result A → S → Result A × S
  commit_with (ok _) db r db' = (r, db')
  commit_with (err e) db r db' = (err e, db)

  abbrev finish : Link → S → Result (A × S) → Result A × S
  finish link db (err e) = (err e, db)
  finish link db (ok (v, db')) = commit_with link.commit db (ok v) db'

  abbrev pub begin_with : Result (Unit {0}) → S → Result A × S → Result A × S
  begin_with (ok _) db next = next
  begin_with (err e) db next = (err e, db)

  unfoldable pub with_transaction : Link → (S → Result (A × S)) → S → Result A × S
  with_transaction link body db = begin_with link.begin db (finish link db (body db))

  with_transaction-err :
      (link : Link) (body : S → Result (A × S)) (db db' : S) (e : OidcError)
      → with_transaction link body db ≡ (err e, db')
      → db' ≡ db
  unfolding with_transaction
  with_transaction-err link body db db' e h = ground arith

  with_transaction-ok :
      (link : Link) (body : S → Result (A × S)) (db db' : S) (v : A)
      → with_transaction link body db ≡ (ok v, db')
      → body db ≡ ok (v, db')
  unfolding with_transaction
  with_transaction-ok link body db db' v h = ground arith

  -- A caller connects, then runs the transaction.
  pub connected-err :
      (link : Link) (body : S → Result (A × S)) (db db' : S) (e : OidcError)
      → begin_with link.connect db (with_transaction link body db) ≡ (err e, db')
      → db' ≡ db
  connected-err link body db db' e h = ground (arith, with_transaction-err link body db db' e)

  pub connected-ok :
      (link : Link) (body : S → Result (A × S)) (db db' : S) (v : A)
      → begin_with link.connect db (with_transaction link body db) ≡ (ok v, db')
      → body db ≡ ok (v, db')
  connected-ok link body db db' v h = ground (arith, with_transaction-ok link body db db' v)

-- What holds before, and after the body where it succeeds, holds after the transaction.
module _ {S A : Type 0} (P : S → Type 0) where
  finish_keeps :
      (link : Link) (db : S) (r : Result (A × S))
      → P db
      → ((v : A) (db' : S) → r ≡ ok (v, db') → P db')
      → P (finish link db r).1
  finish_keeps link db (err e) before after = before
  finish_keeps link db (ok (v, db')) before after = elim (Result-cases link.commit) [
    | inl (u, e) ↦ rw e (after v db' refl)
    | inr (e, failed) ↦ rw failed before
  ]

  pub connected_keeps :
      (link : Link) (body : S → Result (A × S)) (db : S)
      → P db
      → ((v : A) (db' : S) → body db ≡ ok (v, db') → P db')
      → P (begin_with link.connect db (with_transaction link body db)).1
  unfolding with_transaction
  connected_keeps link body db before after = elim (Result-cases link.connect) [
    | inr (e, failed) ↦ rw failed before
    | inl (u, e) ↦ rw e (elim (Result-cases link.begin) [
      | inr (e, failed) ↦ rw failed before
      | inl (u, e) ↦ rw e (finish_keeps link db (body db) before after)
    ])
  ]

-- A connection with no fault.
pub record IsUp (link : Link) : Type 0 where
  pub connects : link.connect ≡ ok tt
  pub begins : link.begin ≡ ok tt
  pub commits : link.commit ≡ ok tt

pub connected-err_of_body :
    {S A : Type 0} (link : Link) (body : S → Result (A × S)) (db : S) (e : OidcError)
    → IsUp link
    → body db ≡ err e
    → begin_with link.connect db (with_transaction link body db) ≡ (err e, db)
unfolding with_transaction
connected-err_of_body link body db e up h = ground arith

pub connected-ok_of_body :
    {S A : Type 0} (link : Link) (body : S → Result (A × S)) (db db' : S) (v : A)
    → IsUp link
    → body db ≡ ok (v, db')
    → begin_with link.connect db (with_transaction link body db) ≡ (ok v, db')
unfolding with_transaction
connected-ok_of_body link body db db' v up h = ground arith
