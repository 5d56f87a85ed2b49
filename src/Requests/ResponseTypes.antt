-- ===== src/Requests/ResponseTypes.antt =====
-- crates/oidc-core/src/models/response_type.rs: the response type of an authorization request.
pub mod RoundTrip
pub mod Words
use Prim.Native.Char.{Char, code}
use Prim.Native.String
use open_id_connect_wasi_hub.Prelude.{
  ℕ, ◌≡◌, ◌↔◌, refl, arith, String, List, [], ◌∷◌, Bool, true, false, Option, none, some, not, ◌&&◌,
  ◌||◌, ◌==◌, nat_eq, string_eq, eq_iff, contains, all, any, if◌then◌else◌, Bool-cases, inl, inr,
}
use open_id_connect_wasi_hub.Models.{ResponseType}

-- `s.split(' ')`: one part more than there are spaces.
abbrev push_char : Char → List String → List String
push_char c [] = String.◌∷◌ c "" ∷ []
push_char c (w ∷ ws) = String.◌∷◌ c w ∷ ws

unfoldable pub split_on_space : String → List String
split_on_space String.[] = "" ∷ []
split_on_space (String.◌∷◌ c s) =
    let parts = split_on_space s in if code c == 32 then "" ∷ parts else push_char c parts

abbrev response_type : Bool → Bool → Bool → ResponseType
response_type code token id_token = record { code = code; token = token; id_token = id_token }

-- `ALL_SUPPORTED`
abbrev pub all_supported : List ResponseType
all_supported =
    response_type true false false
    ∷ response_type false true false
    ∷ response_type false false true
    ∷ response_type true true false
    ∷ response_type true false true
    ∷ response_type false true true
    ∷ response_type true true true
    ∷ []

-- The result of `parse`. The error of an unknown part names one such part, chosen by the order of a
-- `HashSet`; the model does not say which.
pub data Parsed : Type 0 where
  parsed : ResponseType → Parsed
  unsupported_component no_component : Parsed

abbrev pub known_components : List String
known_components = "code" ∷ "token" ∷ "id_token" ∷ []

abbrev pub flags_of : List String → ResponseType
flags_of parts =
    response_type (contains parts "code") (contains parts "token") (contains parts "id_token")

unfoldable pub is_known : String → Bool
is_known part = contains known_components part

unfoldable pub parse : String → Parsed
unfolding is_known
parse s =
    let parts = split_on_space s in
    let r = flags_of parts in
    if not (all is_known parts)
    then unsupported_component
    else if not r.code && not r.token && not r.id_token
    then no_component
    else parsed r

-- `as_str`; `none` is the `unreachable!()` of a value with no component.
unfoldable pub as_str : ResponseType → Option String
as_str r = text r.code r.token r.id_token
  where
    text : Bool → Bool → Bool → Option String
    text true false false = some "code"
    text false true false = some "token"
    text false false true = some "id_token"
    text true true false = some "code token"
    text true false true = some "code id_token"
    text false true true = some "id_token token"
    text true true true = some "code id_token token"
    text false false false = none

unfoldable pub is_implicit_or_hybrid : ResponseType → Bool
is_implicit_or_hybrid r = r.token || r.id_token

-- `From<String>`: what cannot be parsed counts as `code`.
unfoldable pub from_text : String → ResponseType
from_text s = elim (parse s) [
  | parsed r ↦ r
  | unsupported_component ↦ response_type true false false
  | no_component ↦ response_type true false false
]
