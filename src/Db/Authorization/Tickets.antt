-- ===== src/Db/Authorization/Tickets.antt =====
-- A permission ticket is used up once.
use open_id_connect_wasi_hub.Prelude.{
  ℕ, ◌≤◌, ◌≡◌, refl, arith, List, [], ◌∷◌, Bool, false, ◌&&◌, ◌==◌, nat_eq, nat_beq_iff, filter,
  Bool-cases, inl, inr, string_eq,
}
use open_id_connect_wasi_hub.Db.Tables.{StoredTicket}
use open_id_connect_wasi_hub.Db.Authorization.{is_unused, consume_ticket}

module _ (id now now' : ℕ) (granted : Bool) (later : now ≤ now') where
  abbrev open_at : ℕ → StoredTicket → Bool
  open_at time s = s.ticket.id == id && is_unused time s.ticket

  open_at-later : (s : StoredTicket) → open_at now s ≡ false → open_at now' s ≡ false
  unfolding is_unused
  open_at-later s h = ground arith

  filter-consumed :
      (t : List StoredTicket) → filter (open_at now') (consume_ticket id granted now t).1 ≡ []
  unfolding consume_ticket is_unused
  filter-consumed [] = refl
  filter-consumed (s ∷ t) = elim (Bool-cases (open_at now s)) [
    | inl e ↦ ground (arith, e, filter-consumed t)
    | inr e ↦ ground (arith, e, open_at-later s e, filter-consumed t)
  ]

  -- Once a ticket was used up, with whatever answer, it is not used up again at that time or later.
  pub consume_ticket_twice :
      (again : Bool) (t : List StoredTicket)
      → (consume_ticket id again now' (consume_ticket id granted now t).1).0 ≡ false
  unfolding consume_ticket
  consume_ticket_twice again t =
      let spent = filter-consumed t in ground (arith, spent, nat_beq_iff 0 1)
