-- ===== src/Db/Sessions/Effects.antt =====
-- What one transaction does to the sessions, and the two facts about families that it keeps: a dead
-- family stays dead, and a family has at most one session that can be refreshed.
use mathlib.Core.Option.{some-injective}
use open_id_connect_wasi_hub.Prelude.{
  ℕ, ◌≤◌, ◌≡◌, ◌≢◌, refl, sym, subst, String, List, none, some, true, false, arith, ◌==◌, nat_eq,
  option_eq, option_beq_iff, inl, inr, Bool-cases, ◌∙◌,
}
use open_id_connect_wasi_hub.Models.{Session}
use open_id_connect_wasi_hub.Db.Sessions.{create, mark_rotated, find_by_refresh_token_hash}
use open_id_connect_wasi_hub.Db.Sessions.Laws.{
  IsDead, find-IsDead, find-create, find_by_refresh_token_hash_sound,
}
use open_id_connect_wasi_hub.Db.Sessions.Families.{
  Revision, unchanged, Revision-mark_rotated, has_family, has_family-create, has_family-Revision,
  live_count, is_live, live_count-create, live_count-mark_rotated, live_count-Revision,
  live_count_absent, IsDead-Revision, IsDead-create,
}

-- A step revises the rows, or adds one of a new family or of none, or adds one and marks the one that it
-- replaces; or it does several of these one after the other.
pub data Effect : List Session → List Session → Type 0 where
  revised : {t u : List Session} → Revision t u → Effect t u
  added :
      {t : List Session} (now : ℕ) (s : Session) (g : ℕ)
      → s.token_family_id ≡ some g
      → has_family g t ≡ false
      → Effect t (create now s t)
  added_alone :
      {t : List Session} (now : ℕ) (s : Session)
      → s.token_family_id ≡ none
      → Effect t (create now s t)
  then_after : {t u v : List Session} → Effect t u → Effect u v → Effect t v
  replaced :
      {t : List Session} (now : ℕ) (hash : String) (old new : Session)
      → find_by_refresh_token_hash hash t ≡ some old
      → old.rotated_at ≡ none
      → new.token_family_id ≡ old.token_family_id
      → Effect t (mark_rotated old.id now (create now new t))

module _ (f : ℕ) where
  -- A family that has a session is not the new one.
  other_family :
      (g : ℕ) (s : Session) (t : List Session)
      → s.token_family_id ≡ some g
      → has_family g t ≡ false
      → has_family f t ≡ true
      → s.token_family_id ≢ some f
  other_family g s t e new p h =
      let same = some-injective g f (sym e ∙ h) in
      let absent = subst (λ k. has_family k t ≡ false) same new in ground arith

  pub Effect-IsDead :
      {t u : List Session}
      → Effect t u
      → has_family f t ≡ true
      → IsDead f t
      → (has_family f u ≡ true) × IsDead f u
  Effect-IsDead (revised r) p d = (has_family-Revision f r ∙ p, IsDead-Revision f r d)
  Effect-IsDead {t} (added now s g e new) p d = (
    rw (has_family-create f now s t, p) refl,
    IsDead-create f now s t d (other_family g s t e new p),
  )
  Effect-IsDead {t} (added_alone now s e) p d = (
    rw (has_family-create f now s t, p) refl,
    IsDead-create f now s t d (λ h. absurd (ground (arith, sym e ∙ h))),
  )
  Effect-IsDead (then_after e later) p d =
      let (p', d') = Effect-IsDead e p d in Effect-IsDead later p' d'
  Effect-IsDead {t} (replaced now hash old new h r e) p d =
      let ne = find-IsDead f hash t old d h in
      let marked = Revision-mark_rotated old.id now (unchanged {t = create now new t}) in
      (
        has_family-Revision f marked ∙ rw (has_family-create f now new t, p) refl,
        IsDead-Revision f marked (IsDead-create f now new t d (λ k. ne (sym e ∙ k))),
      )

  pub Effect-live_count :
      {t u : List Session} → Effect t u → live_count f t ≤ 1 → live_count f u ≤ 1
  Effect-live_count (revised r) h = omega (arith, live_count-Revision f r)
  Effect-live_count {t} (added now s g e new) h = elim (Bool-cases (s.token_family_id == some f)) [
    | inl hit ↦
        let same =
          some-injective g f (sym e ∙ (option_beq_iff nat_eq s.token_family_id (some f)).0 hit) in
        let absent = live_count_absent f t (subst (λ k. has_family k t ≡ false) same new) in
        ground (arith, live_count-create f now s t, absent)
    | inr miss ↦ ground (arith, live_count-create f now s t, miss)
  ]
  Effect-live_count {t} (added_alone now s e) h =
      ground
        (arith, live_count-create f now s t, e, option_beq_iff nat_eq s.token_family_id (some f))
  Effect-live_count (then_after e later) h = Effect-live_count later (Effect-live_count e h)
  Effect-live_count {t} (replaced now hash old new h r e) k =
      elim (Bool-cases (new.token_family_id == some f)) [
        | inl hit ↦
            let family = sym e ∙ (option_beq_iff nat_eq new.token_family_id (some f)).0 hit in
            let (_, alive) = find_by_refresh_token_hash_sound hash t old h in
            let live : is_live f old ≡ true =
              ground (arith, (option_beq_iff nat_eq old.token_family_id (some f)).1 family) in
            ground (
              arith,
              live_count-create f now new t,
              live_count-mark_rotated f now hash (create now new t) old
                  (find-create hash now new t old h) live,
            )
        | inr miss ↦ ground (
          arith,
          miss,
          live_count-create f now new t,
          live_count-Revision f
              (Revision-mark_rotated old.id now (unchanged {t = create now new t})),
        )
      ]
