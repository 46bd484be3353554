-- ===== src/Chat/Sessions/Loading.antt =====
-- `load` of ConversationStoreSerializer in src/robotsix_chat/chat/conversation.py: the current format and
-- the legacy one. A set is walked in the order of its list.
use robotsix_chat.Base.{
  ℕ, suc, String, Bool, true, false, Option, none, some, List, [], ◌∷◌, ltb, elem, set_add, length,
  if◌then◌else◌,
}
use robotsix_chat.Base.Dict.{Dict, get, put}
use robotsix_chat.Chat.Titles.{derive_title}
use robotsix_chat.Chat.Conversation.{Session}
use robotsix_chat.Chat.SessionFile.{
  Json, arr, obj, Items, nil, cons, Fields, field, end, lookup, Reader, as_text, parse_turns,
  parse_session, skipped, raised, read_session, exact_text,
}
use robotsix_chat.Chat.Sessions.{OwnerState, FileContent, canonical_owner_id, new_session}

-- `|=` on sets
abbrev pub union_ids : List String → List String → List String
union_ids ids [] = ids
union_ids ids (j ∷ js) = union_ids (set_add j ids) js

-- `_last_active`, with 0 for the code's -1.0.
abbrev pub last_active_rank : Option Session → ℕ
last_active_rank none = 0
last_active_rank (some s) = suc s.wall_last_active

unfoldable pub merge_owner :
    Dict Session → String → String → List String → Dict OwnerState → Dict OwnerState
merge_owner sessions owner active ids owners = elim (get owner owners) [
  | none ↦ put owner (record { active_session_id = active; session_ids = ids }) owners
  | some o ↦
      put owner
        (record {
          active_session_id =
              if ltb (last_active_rank (get o.active_session_id sessions))
                (last_active_rank (get active sessions))
              then active
              else o.active_session_id;
          session_ids = union_ids o.session_ids ids;
        })
        owners
]

-- The inner loop of `_load_current_format`; `none` is an exception.
unfoldable pub read_entries :
    Reader → ℕ → ℕ → Items → Dict Session → List String → Option (Dict Session × List String)
read_entries r max now nil sessions ids = some (sessions, ids)
read_entries r max now (cons v vs) sessions ids = elim (parse_session r max now v) [
  | skipped ↦ read_entries r max now vs sessions ids
  | raised ↦ none
  | read_session id s ↦ read_entries r max now vs (put id s sessions) (set_add id ids)
]

abbrev pub list_at : String → Json → Option Items
list_at k (obj raw) = elim (lookup k raw) [ some (arr vs) ↦ some vs | _ ↦ none ]
list_at k _ = none

abbrev pub text_at : String → Json → Option String
text_at k (obj raw) = exact_text (lookup k raw)
text_at k _ = none

-- `active_sid`
abbrev pub chosen : Option String → String → List String → String
chosen none first ids = first
chosen (some active) first ids = if elem active ids then active else first

abbrev pub fold_owner :
    String → Option String → List String → Dict Session → Dict OwnerState → Dict OwnerState
fold_owner owner active [] sessions owners = owners
fold_owner owner active (id ∷ ids) sessions owners =
    merge_owner sessions (canonical_owner_id owner) (chosen active id (id ∷ ids)) (id ∷ ids) owners

-- `load` returns with the two dicts, or raises.
pub data Loaded : Type 0 where
  load_raised : Loaded
  loaded : Dict Session → Dict OwnerState → Loaded

unfoldable pub load_current : Reader → ℕ → ℕ → Fields → Dict Session → Dict OwnerState → Loaded
unfolding read_entries merge_owner
load_current r max now end sessions owners = loaded sessions owners
load_current r max now (field owner v fs) sessions owners = elim (list_at "sessions" v) [
  | none ↦ load_current r max now fs sessions owners
  | some vs ↦ elim (read_entries r max now vs sessions []) [
    | none ↦ load_raised
    | some (sessions', ids) ↦
        load_current r max now fs sessions'
          (fold_owner owner (text_at "active_session_id" v) ids sessions' owners)
  ]
]

-- `str(entry.get("session_id", client_id))`
abbrev pub legacy_id : Reader → String → Json → String
legacy_id r client (obj raw) = elim (lookup "session_id" raw) [
  | none ↦ client
  | some v ↦ as_text r v
]
legacy_id r client _ = client

abbrev pub legacy_turns : Reader → ℕ → Json → List (String × String)
legacy_turns r max v = elim (list_at "turns" v) [
  | none ↦ []
  | some vs ↦ parse_turns r max (some (arr vs))
]

unfoldable pub load_legacy : Reader → ℕ → ℕ → Fields → Dict Session → Dict OwnerState → Loaded
unfolding merge_owner
load_legacy r max now end sessions owners = loaded sessions owners
load_legacy r max now (field client v fs) sessions owners = elim (legacy_turns r max v) [
  | [] ↦ load_legacy r max now fs sessions owners
  | (user, reply) ∷ turns ↦
      let id = legacy_id r client v in
      let s : Session = record (new_session id now) {
        title = derive_title user;
        turns = (user, reply) ∷ turns;
        turn_count = suc (length turns);
      } in
      load_legacy r max now fs (put id s sessions)
        (merge_owner (put id s sessions) (canonical_owner_id client) id (id ∷ []) owners)
]

-- Whether the first top-level value is a dict with `turns`.
abbrev pub is_legacy : Fields → Bool
is_legacy end = false
is_legacy (field k (obj raw) fs) = elim (lookup "turns" raw) [ none ↦ false | some v ↦ true ]
is_legacy (field k v fs) = false

abbrev pub load_json : Reader → ℕ → ℕ → Json → Loaded
load_json r max now (obj raw) =
    if is_legacy raw then load_legacy r max now raw [] [] else load_current r max now raw [] []
load_json r max now _ = loaded [] []

-- What `load` finds in the file, and the file after it: a corrupt one is moved aside.
unfoldable pub load : Reader → ℕ → ℕ → FileContent → Loaded
unfolding load_current load_legacy
load r max now (FileContent.json v) = load_json r max now v
load r max now _ = loaded [] []

unfoldable pub file_after_load : Bool → FileContent → FileContent
file_after_load writable FileContent.corrupt =
    if writable then FileContent.missing else FileContent.corrupt
file_after_load writable f = f
