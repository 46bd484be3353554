-- ===== src/Chat/Sessions/Turns.antt =====
-- The operations of ConversationStore in src/robotsix_chat/chat/conversation.py on one session: opening
-- it, recording a turn, and the reads and writes of its fields.
use robotsix_chat.Base.{
  ℕ, String, Bool, true, false, ◌&&◌, Option, none, some, List, [], ◌∷◌, drop, ◌==◌, str_eq,
  set_add, if◌then◌else◌,
}
use robotsix_chat.Base.Dict.{Dict, get, put, keys}
use robotsix_chat.Chat.Titles.{derive_title, has_text}
use robotsix_chat.Chat.Conversation.{
  Session, append_turn, agent_view, aligned_actions, first_replayed,
}
use robotsix_chat.Chat.SessionFile.{or_else, default_title}
use robotsix_chat.Chat.Sessions.{
  OwnerState, ConversationStore, canonical_owner_id, new_session, move_to_end, evict_overflow,
  persist,
}

-- The session with its clock set, or a new one.
abbrev pub touched : String → ℕ → Option Session → Session
touched id now found = record (or_else found (new_session id now)) { wall_last_active = now }

abbrev pub with_session : String → Session → ConversationStore → ConversationStore
with_session id s c = record c { sessions = put id s c.sessions }

abbrev pub to_end : String → ConversationStore → ConversationStore
to_end id c = record c { sessions = move_to_end id c.sessions }

unfoldable pub begin :
    String → ConversationStore → ConversationStore × String × List (String × String)
begin id c =
    let s = touched id c.now (get id c.sessions) in
    (evict_overflow (to_end id (with_session id s c)), s.session_id, agent_view s)

abbrev pub titled : String → Session → Session
titled message s = record s {
  title =
      if (s.turn_count == 0) && has_text message && str_eq s.title default_title
      then derive_title message
      else s.title;
}

-- The session after `record`, but for the place in the order.
abbrev pub recorded : ℕ → ℕ → String → String → List String → Session → Session
recorded max now message reply actions s =
    record (append_turn max (message, reply) actions (titled message s)) { wall_last_active = now }

abbrev pub activate : String → Option OwnerState → String → Dict OwnerState → Dict OwnerState
activate owner none id owners = owners
activate owner (some o) id owners =
    put owner (record { active_session_id = id; session_ids = set_add id o.session_ids }) owners

abbrev pub link_owner : Option String → String → Dict OwnerState → Dict OwnerState
link_owner none id owners = owners
link_owner (some owner) id owners =
    if str_eq owner ""
    then owners
    else activate (canonical_owner_id owner) (get (canonical_owner_id owner) owners) id owners

abbrev pub link : Option String → String → ConversationStore → ConversationStore
link owner id c = record c { owners = link_owner owner id c.owners }

-- `record`
unfoldable pub record_turn :
    String → Option String → String → String → List String → ConversationStore → ConversationStore
record_turn id owner message reply actions c = elim (get id c.sessions) [
  | none ↦ c
  | some s ↦ persist (
      link owner id (
        to_end id (with_session id (recorded c.max_history_turns c.now message reply actions s) c)))
]

unfoldable pub record_for_owner : String → String → String → ConversationStore → ConversationStore
record_for_owner owner message reply c = elim (get (canonical_owner_id owner) c.owners) [
  | none ↦ c
  | some o ↦ record_turn o.active_session_id (some (canonical_owner_id owner)) message reply [] c
]

abbrev pub ensure_session : String → ConversationStore → ConversationStore
ensure_session id c = elim (get id c.sessions) [
  | none ↦ evict_overflow (to_end id (with_session id (new_session id c.now) c))
  | some s ↦ c
]

unfoldable pub record_for_session : String → String → String → ConversationStore → ConversationStore
record_for_session id message reply c = record_turn id none message reply [] (ensure_session id c)

unfoldable pub agent_history : String → ConversationStore → List (String × String)
agent_history id c = elim (get id c.sessions) [ none ↦ [] | some s ↦ agent_view s ]

abbrev pub summary_slot : Option String → List (List String) → List (List String)
summary_slot none logs = logs
summary_slot (some summary) logs = if str_eq summary "" then logs else [] ∷ logs

unfoldable pub agent_history_actions : String → ConversationStore → List (List String)
agent_history_actions id c = elim (get id c.sessions) [
  | none ↦ []
  | some s ↦ summary_slot s.compacted_summary (drop (first_replayed s) (aligned_actions s))
]

unfoldable pub history : String → ConversationStore → List (String × String)
history id c = elim (get id c.sessions) [ none ↦ [] | some s ↦ s.turns ]

unfoldable pub history_actions : String → ConversationStore → List (List String)
history_actions id c = elim (get id c.sessions) [ none ↦ [] | some s ↦ aligned_actions s ]

-- A write of a session that is there; `false` for one that is not.
abbrev pub changed : String → (Session → Session) → ConversationStore → ConversationStore × Bool
changed id f c = elim (get id c.sessions) [
  | none ↦ (c, false)
  | some s ↦ (persist (with_session id (f s) c), true)
]

unfoldable pub set_title : String → String → ConversationStore → ConversationStore × Bool
set_title id title c = changed id (λ s. record s { title = title }) c

unfoldable pub set_model_level : String → ℕ → ConversationStore → ConversationStore × Bool
set_model_level id level c = changed id (λ s. record s { model_level = some level }) c

unfoldable pub get_model_level : String → ConversationStore → Option ℕ
get_model_level id c = elim (get id c.sessions) [ none ↦ none | some s ↦ s.model_level ]

unfoldable pub is_session_closed : String → ConversationStore → Bool
is_session_closed id c = elim (get id c.sessions) [ none ↦ false | some s ↦ s.closed ]

-- `reopen_session`
unfoldable pub reopen_session : String → ConversationStore → ConversationStore × Bool
reopen_session id c =
    if is_session_closed id c then changed id (λ s. record s { closed = false }) c else (c, false)

unfoldable pub last_active : String → ConversationStore → Option ℕ
last_active id c = elim (get id c.sessions) [ none ↦ none | some s ↦ some s.wall_last_active ]

unfoldable pub all_session_ids : ConversationStore → List String
all_session_ids c = keys c.sessions
