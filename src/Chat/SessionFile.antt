-- ===== src/Chat/SessionFile.antt =====
-- The readers and the writer of the session file in src/robotsix_chat/chat/conversation.py: one session's
-- entry, and the parsing of its turns and actions. A JSON number in the file is a natural number.
pub mod RoundTrip
use robotsix_chat.Base.{
  ℕ, zero, suc, ◌-◌, String, Bool, true, false, not, Option, none, some, List, [], ◌∷◌, ◌++◌, map,
  length, ltb, leb, ◌==◌, str_eq, bit, is_empty, any_if, if◌then◌else◌,
}
use robotsix_chat.Chat.Conversation.{Session, from_end, empties, smaller}

mutual
  pub data Json : Type 0 where
    null : Json
    bool : Bool → Json
    num : ℕ → Json
    str : String → Json
    arr : Items → Json
    obj : Fields → Json

  pub data Items : Type 0 where
    nil : Items
    cons : Json → Items → Items

  pub data Fields : Type 0 where
    end : Fields
    field : String → Json → Fields → Fields

abbrev pub items : List Json → Items
items [] = nil
items (v ∷ vs) = cons v (items vs)

abbrev pub elements : Items → List Json
elements nil = []
elements (cons v vs) = v ∷ elements vs

-- `raw.get(k)`
unfoldable pub lookup : String → Fields → Option Json
lookup k end = none
lookup k (field j v fs) = if str_eq j k then some v else lookup k fs

-- What the reader takes from outside: Python's `str` on a value that is no text, `int` on a text, and
-- the model levels of the language-model library.
pub record Reader : Type 0 where
  pub str_of : Json → String
  pub int_of : String → Option ℕ
  pub model_levels : List ℕ

abbrev pub as_text : Reader → Json → String
as_text r (str s) = s
as_text r v = r.str_of v

-- `isinstance(v, int)`; a `bool` is an `int`.
abbrev pub as_int : Option Json → Option ℕ
as_int (some (num n)) = some n
as_int (some (bool b)) = some (bit b)
as_int _ = none

abbrev pub or_else {ℓ} : {A : Type ℓ} → Option A → A → A
or_else none d = d
or_else (some a) d = a

abbrev pub exact_text : Option Json → Option String
exact_text (some (str s)) = some s
exact_text _ = none

-- `bool(v)`
abbrev pub truthy : Json → Bool
truthy null = false
truthy (bool b) = b
truthy (num n) = not (n == 0)
truthy (str s) = not (str_eq s "")
truthy (arr nil) = false
truthy (arr (cons v vs)) = true
truthy (obj end) = false
truthy (obj (field k v fs)) = true

-- `int(v)`, which may raise.
abbrev pub to_int : Reader → Json → Option ℕ
to_int r (num n) = some n
to_int r (bool b) = some (bit b)
to_int r (str s) = r.int_of s
to_int r _ = none

abbrev pub turn_of : Reader → Json → List (String × String)
turn_of r (arr (cons a (cons b nil))) = (as_text r a, as_text r b) ∷ []
turn_of r _ = []

abbrev pub turns_of : Reader → Items → List (String × String)
turns_of r nil = []
turns_of r (cons v vs) = turn_of r v ++ turns_of r vs

abbrev pub raw_turns : Reader → Option Json → List (String × String)
raw_turns r (some (arr vs)) = turns_of r vs
raw_turns r _ = []

unfoldable pub parse_turns : Reader → ℕ → Option Json → List (String × String)
parse_turns r max raw =
    let turns = raw_turns r raw in if ltb max (length turns) then from_end max turns else turns

abbrev pub texts_of : Items → List String
texts_of nil = []
texts_of (cons (str s) vs) = s ∷ texts_of vs
texts_of (cons v vs) = texts_of vs

abbrev pub action_entry : Json → List String
action_entry (arr vs) = texts_of vs
action_entry _ = []

abbrev pub raw_actions : Option Json → List (List String)
raw_actions (some (arr vs)) = map action_entry (elements vs)
raw_actions _ = []

-- The log, shortened from the front or padded to the number of the turns.
abbrev pub fit : ℕ → List (List String) → List (List String)
fit n_turns parsed =
    let kept = if ltb n_turns (length parsed) then from_end n_turns parsed else parsed in
    kept ++ empties (n_turns - length kept)

unfoldable pub parse_actions : Option Json → ℕ → List (List String)
parse_actions raw n_turns = fit n_turns (raw_actions raw)

-- `clamp_persisted_model_level`
abbrev pub member : ℕ → List ℕ → Bool
member n ns = any_if (λ m. m == n) ns

abbrev pub largest : List ℕ → ℕ
largest [] = 0
largest (n ∷ ns) = let rest = largest ns in if ltb n rest then rest else n

unfoldable pub clamp_level : List ℕ → ℕ → ℕ
clamp_level levels n =
    if member n levels then n else if n == 4 then 2 else if n == 5 then 3 else largest levels

abbrev pub clamp_if : List ℕ → Option ℕ → Option ℕ
clamp_if levels none = none
clamp_if levels (some n) = some (clamp_level levels n)

abbrev pub default_title : String
default_title = "New chat"

abbrev pub title_of : Reader → Option Json → String
title_of r none = default_title
title_of r (some v) = as_text r v

-- `int(sraw.get("turn_count", len(turns)))`; `none` is an exception.
abbrev pub count_of : Reader → ℕ → Option Json → Option ℕ
count_of r n none = some n
count_of r n (some v) = to_int r v

abbrev pub flag_of : Option Json → Bool
flag_of none = false
flag_of (some v) = truthy v

-- An entry that is skipped, one that raises, and one that is read.
pub data Parsed : Type 0 where
  skipped : Parsed
  raised : Parsed
  read_session : String → Session → Parsed

abbrev pub with_count : Option ℕ → (ℕ → Session) → String → Parsed
with_count none make id = raised
with_count (some n) make id = read_session id (make n)

abbrev pub parse_fields : Reader → ℕ → ℕ → Fields → String → Parsed
parse_fields r max now raw id =
    let turns = parse_turns r max (lookup "turns" raw) in
    with_count (count_of r (length turns) (lookup "turn_count" raw))
      (λ count. record {
        session_id = id;
        title = title_of r (lookup "title" raw);
        wall_last_active = or_else (as_int (lookup "last_active" raw)) now;
        turns = turns;
        actions = parse_actions (lookup "actions" raw) (length turns);
        turn_count = count;
        closed = flag_of (lookup "closed" raw);
        model_level = clamp_if r.model_levels (as_int (lookup "model_level" raw));
        compacted_summary = exact_text (lookup "compacted_summary" raw);
        compacted_turn_index =
            smaller (or_else (as_int (lookup "compacted_turn_index" raw)) 0) (length turns);
        compacted_into = exact_text (lookup "compacted_into" raw);
        trimmed_turn_index =
            smaller (or_else (as_int (lookup "trimmed_turn_index" raw)) 0) (length turns);
        last_trim_turn_count = or_else (as_int (lookup "last_trim_turn_count" raw)) 0;
      })
      id

abbrev pub parse_with_id : Reader → ℕ → ℕ → Fields → Option Json → Parsed
parse_with_id r max now raw (some (str id)) = parse_fields r max now raw id
parse_with_id r max now raw _ = skipped

-- One turn of the loop over `sessions_raw` in `_load_current_format`.
unfoldable pub parse_session : Reader → ℕ → ℕ → Json → Parsed
parse_session r max now (obj raw) = parse_with_id r max now raw (lookup "session_id" raw)
parse_session r max now _ = skipped

-- The keys of a dict that is built with some of them left out.
abbrev pub present : List (String × Option Json) → Fields
present [] = end
present ((k, none) ∷ es) = present es
present ((k, some v) ∷ es) = field k v (present es)

abbrev pub given_if : Bool → Json → Option Json
given_if true v = some v
given_if false v = none

abbrev pub text_json : Option String → Option Json
text_json none = none
text_json (some s) = some (str s)

abbrev pub num_json : Option ℕ → Option Json
num_json none = none
num_json (some n) = some (num n)

abbrev pub turn_json : String × String → Json
turn_json (a, b) = arr (cons (str a) (cons (str b) nil))

abbrev pub actions_json : List String → Json
actions_json acts = arr (items (map str acts))

-- `any(session.actions)`
abbrev pub any_action : List (List String) → Bool
any_action logs = any_if (λ (l : List String). not (is_empty l)) logs

abbrev pub nonzero : ℕ → Option Json
nonzero n = given_if (not (n == 0)) (num n)

abbrev pub session_entries : Session → List (String × Option Json)
session_entries s =
    ("session_id", some (str s.session_id))
    ∷ ("title", some (str s.title))
    ∷ ("last_active", some (num s.wall_last_active))
    ∷ ("turn_count", some (num s.turn_count))
    ∷ ("turns", some (arr (items (map turn_json s.turns))))
    ∷ ("closed", some (bool s.closed))
    ∷ ("model_level", num_json s.model_level)
    ∷ ("actions", given_if (any_action s.actions) (arr (items (map actions_json s.actions))))
    ∷ ("compacted_summary", text_json s.compacted_summary)
    ∷ ("compacted_turn_index", nonzero s.compacted_turn_index)
    ∷ ("compacted_into", text_json s.compacted_into)
    ∷ ("trimmed_turn_index", nonzero s.trimmed_turn_index)
    ∷ ("last_trim_turn_count", nonzero s.last_trim_turn_count)
    ∷ []

-- `session_dict` of `persist`.
unfoldable pub session_dict : Session → Json
session_dict s = obj (present (session_entries s))
