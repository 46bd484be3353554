-- ===== src/Chat/Sessions.antt =====
-- The state of ConversationStore in src/robotsix_chat/chat/conversation.py: the sessions in the order of
-- their use, the owners, and the file. `now` is the clock's reading.
pub mod Loading
pub mod Turns
pub mod Owners
pub mod Compaction
pub mod Links
pub mod Sound
pub mod Restart
use Prim.Native.String
use robotsix_chat.Base.{
  ℕ, String, Bool, true, false, ◌&&◌, Option, none, some, List, [], ◌∷◌, ◌++◌, length, ltb, str_eq,
  elem, discard, is_empty, if◌then◌else◌,
}
use robotsix_chat.Base.Dict.{Dict, get, put, remove}
use robotsix_chat.Chat.Conversation.{Session}
use robotsix_chat.Chat.SessionFile.{
  Json, str, arr, obj, items, present, given_if, session_dict, default_title,
}

pub record OwnerState : Type 0 where
  pub active_session_id : String
  pub session_ids : List String

-- The persist file: not there, not readable, no JSON, or a JSON value.
pub data FileContent : Type 0 where
  missing unreadable corrupt : FileContent
  json : Json → FileContent

pub record ConversationStore : Type 0 where
  pub max_history_turns : ℕ
  pub max_conversations : ℕ
  pub now : ℕ
  pub sessions : Dict Session
  pub owners : Dict OwnerState
  pub has_serializer : Bool
  pub writable : Bool
  pub file : FileContent

abbrev pub operator_owner : String
operator_owner = "operator"

abbrev pub periodic_owner : String
periodic_owner = "periodic"

unfoldable pub canonical_owner_id : String → String
canonical_owner_id owner = if str_eq owner periodic_owner then owner else operator_owner

-- `Session(session_id=…, wall_last_active=…)`
abbrev pub new_session : String → ℕ → Session
new_session id now = record {
  session_id = id;
  title = default_title;
  wall_last_active = now;
  turns = [];
  actions = [];
  turn_count = 0;
  closed = false;
  compacted_summary = none;
  compacted_turn_index = 0;
  model_level = none;
  compacted_into = none;
  trimmed_turn_index = 0;
  last_trim_turn_count = 0;
}

-- `OrderedDict.move_to_end`
unfoldable pub move_to_end : String → Dict Session → Dict Session
move_to_end id sessions = elim (get id sessions) [
  | none ↦ sessions
  | some s ↦ remove id sessions ++ (id, s) ∷ []
]

unfoldable pub discard_from_all : String → Dict OwnerState → Dict OwnerState
discard_from_all id [] = []
discard_from_all id ((owner, o) ∷ rest) =
    (owner, record o { session_ids = discard id o.session_ids }) ∷ discard_from_all id rest

-- `while len(self._sessions) > self._max_conversations`
unfoldable pub evict_from : ℕ → Dict Session → Dict OwnerState → Dict Session × Dict OwnerState
evict_from max [] owners = ([], owners)
evict_from max ((id, s) ∷ rest) owners = elim (ltb max (length ((id, s) ∷ rest))) [
  | true ↦ evict_from max rest (discard_from_all id owners)
  | false ↦ ((id, s) ∷ rest, owners)
]

unfoldable pub evict_overflow : ConversationStore → ConversationStore
unfolding evict_from
evict_overflow c =
    let (sessions, owners) = evict_from c.max_conversations c.sessions c.owners in
    record c { sessions = sessions; owners = owners }

unfoldable pub stored_sessions : List String → Dict Session → List Json
stored_sessions [] sessions = []
stored_sessions (id ∷ ids) sessions = elim (get id sessions) [
  | none ↦ stored_sessions ids sessions
  | some s ↦ session_dict s ∷ stored_sessions ids sessions
]

abbrev pub owner_json : String → List Json → Option Json
owner_json active [] = none
owner_json active (v ∷ vs) = some (
    obj (
      present (
        ("active_session_id", some (str active)) ∷ ("sessions", some (arr (items (v ∷ vs)))) ∷ [])))

unfoldable pub stored_owners : Dict OwnerState → Dict Session → List (String × Option Json)
unfolding stored_sessions
stored_owners [] sessions = []
stored_owners ((owner, o) ∷ rest) sessions =
    (owner, owner_json o.active_session_id (stored_sessions o.session_ids sessions))
    ∷ stored_owners rest sessions

unfoldable pub persist : ConversationStore → ConversationStore
unfolding stored_owners
persist c =
    if c.has_serializer && c.writable
    then record c { file = json (obj (present (stored_owners c.owners c.sessions))) }
    else c

-- `_owner_ids_for`
unfoldable pub owner_ids_for : String → Dict OwnerState → List String
owner_ids_for id [] = []
owner_ids_for id ((owner, o) ∷ rest) =
    let others = owner_ids_for id rest in if elem id o.session_ids then owner ∷ others else others

-- `owner_for_session`
unfoldable pub owner_for_session : String → Dict OwnerState → Option String
owner_for_session id [] = none
owner_for_session id ((owner, o) ∷ rest) =
    if elem id o.session_ids then some owner else owner_for_session id rest
