-- ===== src/Ai/RawResponse.antt =====
-- The JSON in the model's answer, `parseRawResponse`, `getString` and `getNested` of
-- frontend/src/pages/ai/AnalysisReport.tsx. JSON.parse and the two regular expressions are parameters.
pub mod Laws
use mrboard.Shared.{
  ℕ, zero, suc, ◌+◌, ◌-◌, ◌++◌, Bool, true, false, not, ◌&&◌, ◌||◌, Option, none, some, List, [],
  ◌∷◌, if◌then◌else◌, ◌==◌, nat_eq, nat_beq, ltb, leb, Text, text_eq, lit, is_truthy, length,
}
use mrboard.Shared.Assoc.{get}

-- A number is its text; the names of an object differ.
mutual
  pub data Json : Type 0 where
    null : Json
    bool : Bool → Json
    number string : Text → Json
    array : Jsons → Json
    object : Members → Json

  pub data Jsons : Type 0 where
    no_more : Jsons
    more : Json → Jsons → Jsons

  pub data Members : Type 0 where
    empty : Members
    member : Text → Json → Members → Members

-- `text.replace(/\\x/g, ...)`: a backslash and a letter become one code unit.
unfoldable unescape : ℕ → ℕ → Text → Text
unescape letter c [] = []
unescape letter c (d ∷ []) = d ∷ []
unescape letter c (d ∷ e ∷ s) =
    let found = c ∷ unescape letter c s in
    let other = d ∷ unescape letter c (e ∷ s) in
    if nat_beq d 92 && nat_beq e letter then found else other

abbrev unescape_all : Text → Text
unescape_all s = unescape b'"' b'"' (unescape b't' 9 (unescape b'n' 10 s))

-- `cleaned.indexOf('{')` and the text from there on.
unfoldable from_brace : Text → Option Text
from_brace [] = none
from_brace (c ∷ s) = if nat_beq c b'{' then some (c ∷ s) else from_brace s

abbrev next_depth : ℕ → ℕ → ℕ
next_depth c depth =
    if nat_beq c b'{' then depth + 1 else if nat_beq c b'}' then depth - 1 else depth

abbrev pub cons_code : ℕ → Option Text → Option Text
cons_code c none = none
cons_code c (some s) = some (c ∷ s)

-- The loop that looks for the closing brace, and the slice up to it; none if there is no such brace.
unfoldable pub cut_object : ℕ → Text → Option Text
cut_object depth [] = none
cut_object depth (c ∷ s) =
    let rest = cut_object (next_depth c depth) s in
    if nat_beq (next_depth c depth) 0 then some (c ∷ []) else cons_code c rest

abbrev or_try {ℓ} : {A : Type ℓ} → Option A → Option A → Option A
or_try none b = b
or_try (some a) b = some a

abbrev then_parse : (Text → Option Json) → Option Text → Option Json
then_parse parse none = none
then_parse parse (some s) = parse s

abbrev cut_from : Option Text → Option Text
cut_from none = none
cut_from (some s) = cut_object 0 s

abbrev or_whole : Option Text → Text → Text
or_whole none s = s
or_whole (some t) s = t

-- `code_block` is the group of the first regular expression, `any_object` the match of the second.
unfoldable parse_raw_response :
    (Text → Option Json) → (Text → Option Text) → (Text → Option Text) → Text → Option Json
parse_raw_response parse code_block any_object raw =
    let text = unescape_all raw in
    if ltb (length raw) 10
    then none
    else or_try (parse text) (
        or_try (then_parse parse (cut_from (from_brace (or_whole (code_block text) text))))
          (then_parse parse (any_object text)))

unfoldable get_member : Text → Members → Option Json
get_member k empty = none
get_member k (member j v m) = if j == k then some v else get_member k m

-- `getString`: the first path with a text that is not '', or with a number.
abbrev string_of : Option Json → Option Text
string_of (some (string (c ∷ s))) = some (c ∷ s)
string_of (some (number n)) = some n
string_of _ = none

unfoldable get_string : Members → List Text → Text
get_string m [] = []
get_string m (path ∷ paths) = or_whole (string_of (get_member path m)) (get_string m paths)

-- `getNested`.
unfoldable get_nested : Members → Text → Option Members
get_nested m key = elim (get_member key m) [ some (object n) ↦ some n | _ ↦ none ]
