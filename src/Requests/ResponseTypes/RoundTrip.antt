-- ===== src/Requests/ResponseTypes/RoundTrip.antt =====
-- Parsing and printing of response types.
use Prim.Native.Char.{Char, code}
use open_id_connect_wasi_hub.Prelude.{
  nat_eq, if◌then◌else◌, ◌≡◌, ◌↔◌, refl, arith, String, List, [], ◌∷◌, Bool, true, false, some,
  ◌||◌, ◌==◌, string_eq, eq_iff, all,
}
use open_id_connect_wasi_hub.Models.{ResponseType}
use open_id_connect_wasi_hub.Requests.ResponseTypes.{
  split_on_space, push_char, flags_of, parsed, is_known, parse, as_str,
}

abbrev has_component : ResponseType → Bool
has_component r = r.code || r.token || r.id_token

-- Every value with a component has a text, and that text is parsed as the value.
as_str_parses :
    (r : ResponseType)
    → has_component r ≡ true
    → (t : String) × (as_str r ≡ some t) × (parse t ≡ parsed r)
unfolding as_str parse split_on_space
as_str_parses r h = by_flags r.code r.token r.id_token h
  where
    by_flags :
        (a b c : Bool)
        → (a || b || c) ≡ true
        → (t : String) × (as_str (record { code = a; token = b; id_token = c }) ≡ some t)
          × (parse t ≡ parsed (record { code = a; token = b; id_token = c }))
    by_flags true false false h = ("code", refl, refl)
    by_flags false true false h = ("token", refl, refl)
    by_flags false false true h = ("id_token", refl, refl)
    by_flags true true false h = ("code token", refl, refl)
    by_flags true false true h = ("code id_token", refl, refl)
    by_flags false true true h = ("id_token token", refl, refl)
    by_flags true true true h = ("code id_token token", refl, refl)
    by_flags false false false h = absurd (ground arith)

parsed-has_component : (s : String) (r : ResponseType) → parse s ≡ parsed r → has_component r ≡ true
unfolding parse
parsed-has_component s r h = ground arith

-- Whatever text is parsed, its value has a canonical text, so that printing it never reaches the
-- `unreachable!()`, and parsing the canonical text gives the same value back.
pub parse_canonical :
    (s : String) (r : ResponseType)
    → parse s ≡ parsed r
    → (t : String) × (as_str r ≡ some t) × (parse t ≡ parsed r)
parse_canonical s r h = as_str_parses r (parsed-has_component s r h)

push_or_start-nonempty :
    (space : Bool) (c : Char) (parts : List String)
    → (p : String) × (ps : List String) × ((if space then "" ∷ parts else push_char c parts)
        ≡ p ∷ ps)
push_or_start-nonempty true c parts = ("", parts, refl)
push_or_start-nonempty false c [] = (String.◌∷◌ c "", [], refl)
push_or_start-nonempty false c (w ∷ ws) = (String.◌∷◌ c w, ws, refl)

pub split_on_space-nonempty :
    (s : String) → (p : String) × (ps : List String) × (split_on_space s ≡ p ∷ ps)
unfolding split_on_space
split_on_space-nonempty String.[] = ("", [], refl)
split_on_space-nonempty (String.◌∷◌ c s) =
    push_or_start-nonempty (code c == 32) c (split_on_space s)

known_flags :
    (p : String) (ps : List String) → is_known p ≡ true → has_component (flags_of (p ∷ ps)) ≡ true
unfolding is_known
known_flags p ps h = ground (
  arith,
  eq_iff p "code",
  eq_iff p "token",
  eq_iff p "id_token",
  eq_iff "code" p,
  eq_iff "token" p,
  eq_iff "id_token" p,
)

known_component :
    (s p : String) (ps : List String)
    → split_on_space s ≡ p ∷ ps
    → all is_known (split_on_space s) ≡ true
    → has_component (flags_of (split_on_space s)) ≡ true
known_component s p ps e = rw e (λ known. known_flags p ps (ground arith))

-- A text is parsed exactly where each of its parts is known: the parts name the components, in any
-- order and any number of times. The error of a text without a component is never given.
pub parse_iff :
    (s : String) (r : ResponseType)
    → (parse s ≡ parsed r)
      ↔ ((all is_known (split_on_space s) ≡ true) × (r ≡ flags_of (split_on_space s)))
unfolding parse
parse_iff s r =
    let (p, ps, e) = split_on_space-nonempty s in
    (
      λ h. (ground arith, ground arith),
      λ (known, same). ground (arith, known_component s p ps e known),
    )
