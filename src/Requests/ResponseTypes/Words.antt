-- ===== src/Requests/ResponseTypes/Words.antt =====
-- Which texts are parsed, and as what, in terms of the components that they name.
use Prim.Native.Char.{Char, char, code}
use text.Mathlib.TextEquality.{Char-path}
use open_id_connect_wasi_hub.Prelude.{
  ◌≡◌, ◌↔◌, refl, sym, ap, ◌∙◌, arith, String, List, [], ◌∷◌, map, Bool, true, false, ◌==◌,
  string_eq, nat_eq, nat_beq_iff, eq_iff, any, all, contains, Bool-cases, inl, inr,
}
use open_id_connect_wasi_hub.Models.{ResponseType}
use open_id_connect_wasi_hub.Requests.ResponseTypes.{
  split_on_space, push_char, flags_of, parsed, is_known, parse,
}
use open_id_connect_wasi_hub.Requests.ResponseTypes.RoundTrip.{parse_iff, split_on_space-nonempty}

-- The three components of RFC 6749 and OpenID Connect, and how each is spelt.
pub data Component : Type 0 where
  authorization_code access_token id_token : Component

abbrev pub spelling : Component → String
spelling authorization_code = "code"
spelling access_token = "token"
spelling id_token = "id_token"

abbrev pub is_code : Component → Bool
is_code authorization_code = true
is_code access_token = false
is_code id_token = false

abbrev pub is_access : Component → Bool
is_access authorization_code = false
is_access access_token = true
is_access id_token = false

abbrev pub is_id : Component → Bool
is_id authorization_code = false
is_id access_token = false
is_id id_token = true

abbrev space : Char
space = char 32 tt

-- A word, a space and a text.
abbrev spaced : String → String → String
spaced String.[] s = String.◌∷◌ space s
spaced (String.◌∷◌ c w) s = String.◌∷◌ c (spaced w s)

abbrev join : List String → String
join [] = ""
join (w ∷ []) = w
join (w ∷ v ∷ vs) = spaced w (join (v ∷ vs))

-- Some components, with one space between any two.
abbrev pub spelt : Component → List Component → String
spelt c [] = spelling c
spelt c (d ∷ ds) = spaced (spelling c) (spelt d ds)

abbrev pub named : List Component → ResponseType
named cs = record { code = any is_code cs; token = any is_access cs; id_token = any is_id cs }

split_on_space-spelt :
    (c : Component) (cs : List Component) → split_on_space (spelt c cs) ≡ map spelling (c ∷ cs)
unfolding split_on_space
split_on_space-spelt authorization_code [] = refl
split_on_space-spelt access_token [] = refl
split_on_space-spelt id_token [] = refl
split_on_space-spelt authorization_code (d ∷ ds) =
    ap (λ ws. "code" ∷ ws) (split_on_space-spelt d ds)
split_on_space-spelt access_token (d ∷ ds) = ap (λ ws. "token" ∷ ws) (split_on_space-spelt d ds)
split_on_space-spelt id_token (d ∷ ds) = ap (λ ws. "id_token" ∷ ws) (split_on_space-spelt d ds)

all_known : (cs : List Component) → all is_known (map spelling cs) ≡ true
unfolding is_known
all_known [] = refl
all_known (authorization_code ∷ cs) = all_known cs
all_known (access_token ∷ cs) = all_known cs
all_known (id_token ∷ cs) = all_known cs

contains-code : (cs : List Component) → contains (map spelling cs) "code" ≡ any is_code cs
contains-code [] = refl
contains-code (authorization_code ∷ cs) = refl
contains-code (access_token ∷ cs) = contains-code cs
contains-code (id_token ∷ cs) = contains-code cs

contains-token : (cs : List Component) → contains (map spelling cs) "token" ≡ any is_access cs
contains-token [] = refl
contains-token (authorization_code ∷ cs) = contains-token cs
contains-token (access_token ∷ cs) = refl
contains-token (id_token ∷ cs) = contains-token cs

contains-id_token : (cs : List Component) → contains (map spelling cs) "id_token" ≡ any is_id cs
contains-id_token [] = refl
contains-id_token (authorization_code ∷ cs) = contains-id_token cs
contains-id_token (access_token ∷ cs) = contains-id_token cs
contains-id_token (id_token ∷ cs) = refl

flags_of-named : (cs : List Component) → flags_of (map spelling cs) ≡ named cs
flags_of-named cs = rw (contains-code cs, contains-token cs, contains-id_token cs) refl

component_of : (part : String) → is_known part ≡ true → (c : Component) × (part ≡ spelling c)
unfolding is_known
component_of part h = elim (Bool-cases ("code" == part)) [
  | inl e ↦ (authorization_code, ground (arith, eq_iff "code" part))
  | inr not_code ↦ elim (Bool-cases ("token" == part)) [
    | inl e ↦ (access_token, ground (arith, eq_iff "token" part))
    | inr not_token ↦ (id_token, ground (arith, eq_iff "id_token" part))
  ]
]

components_of :
    (parts : List String)
    → all is_known parts ≡ true
    → (cs : List Component) × (parts ≡ map spelling cs)
components_of [] h = ([], refl)
components_of (part ∷ parts) h =
    let (c, e) = component_of part (ground arith) in
    let (cs, es) = components_of parts (ground arith) in (c ∷ cs, (λ i. e i ∷ es i))

join-spelt : (c : Component) (cs : List Component) → join (map spelling (c ∷ cs)) ≡ spelt c cs
join-spelt c [] = refl
join-spelt c (d ∷ ds) = ap (spaced (spelling c)) (join-spelt d ds)

join_push :
    (c : Char) (w : String) (ws : List String)
    → join (push_char c (w ∷ ws)) ≡ String.◌∷◌ c (join (w ∷ ws))
join_push c w [] = refl
join_push c w (v ∷ vs) = refl

join-split_on_space : (s : String) → join (split_on_space s) ≡ s
unfolding split_on_space
join-split_on_space String.[] = refl
join-split_on_space (String.◌∷◌ c s) =
    let (w, ws, e) = split_on_space-nonempty s in
    let same : join (w ∷ ws) ≡ s = ap join (sym e) ∙ join-split_on_space s in
    elim (Bool-cases (code c == 32)) [
      | inl blank ↦
          let is_space : c ≡ space = Char-path c space ((nat_beq_iff (code c) 32).0 blank) in
          rw (split_on_space, blank, e)
            (ap (λ d. String.◌∷◌ d (join (w ∷ ws))) (sym is_space) ∙ ap (String.◌∷◌ c) same)
      | inr other ↦ rw (split_on_space, other, e) (join_push c w ws ∙ ap (String.◌∷◌ c) same)
    ]

-- A text is parsed as a value exactly where it spells one or more of `code`, `token` and `id_token`
-- with one space between any two, in any order and any number of times; the value has the components
-- that are spelt.
pub parse_words_iff :
    (s : String) (r : ResponseType)
    → (parse s ≡ parsed r)
      ↔ ((c : Component) × (cs : List Component) × (s ≡ spelt c cs) × (r ≡ named (c ∷ cs)))
parse_words_iff s r = (λ h. forward h, λ (c, cs, e, same). backward c cs e same)
  where
    forward :
        parse s ≡ parsed r
        → (c : Component) × (cs : List Component) × (s ≡ spelt c cs) × (r ≡ named (c ∷ cs))
    forward h =
        let (known, flags) = (parse_iff s r).0 h in
        let (w, ws, e) = split_on_space-nonempty s in
        let (cs, spelling_is) = components_of (split_on_space s) known in
        from_components cs spelling_is (sym e ∙ spelling_is) flags
      where
        from_components :
            {w : String} {ws : List String} (cs : List Component)
            → split_on_space s ≡ map spelling cs
            → (w ∷ ws) ≡ map spelling cs
            → r ≡ flags_of (split_on_space s)
            → (c : Component) × (cs : List Component) × (s ≡ spelt c cs) × (r ≡ named (c ∷ cs))
        from_components [] e nonempty flags = absurd (ground (arith, nonempty))
        from_components (c ∷ cs) e nonempty flags = (
          c,
          cs,
          sym (join-split_on_space s) ∙ ap join e ∙ join-spelt c cs,
          flags ∙ ap flags_of e ∙ flags_of-named (c ∷ cs),
        )

    backward :
        (c : Component) (cs : List Component)
        → s ≡ spelt c cs
        → r ≡ named (c ∷ cs)
        → parse s ≡ parsed r
    backward c cs e same =
        let parts : split_on_space s ≡ map spelling (c ∷ cs) =
          ap split_on_space e ∙ split_on_space-spelt c cs in
        (parse_iff s r).1 (
          ap (all is_known) parts ∙ all_known (c ∷ cs),
          same ∙ sym (flags_of-named (c ∷ cs)) ∙ ap flags_of (sym parts),
        )
