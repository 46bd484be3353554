-- ===== src/Chat/Sessions/Owners.antt =====
-- The operations of ConversationStore in src/robotsix_chat/chat/conversation.py on an owner's sessions.
-- The id that the session factory gives is an argument.
use robotsix_chat.Base.{
  ℕ, String, Bool, true, false, Option, none, some, List, [], ◌∷◌, ltb, leb, ◌==◌, elem, set_add,
  discard, is_empty, str_eq, if◌then◌else◌,
}
use robotsix_chat.Base.Dict.{Dict, get, put, remove}
use robotsix_chat.Chat.Conversation.{Session}
use robotsix_chat.Chat.SessionFile.{default_title, or_else}
use robotsix_chat.Chat.Sessions.{
  OwnerState, ConversationStore, canonical_owner_id, new_session, evict_overflow, persist,
  owner_ids_for,
}
use robotsix_chat.Chat.Sessions.Turns.{with_session, to_end, changed}

abbrev pub with_owner : String → OwnerState → ConversationStore → ConversationStore
with_owner owner o c = record c { owners = put owner o c.owners }

-- `_OwnerState(active_session_id=sid, session_ids={sid})`
abbrev pub sole : String → OwnerState
sole id = record { active_session_id = id; session_ids = id ∷ [] }

-- The fields of `_session_metadata`.
pub record Metadata : Type 0 where
  pub session_id : String
  pub title : String
  pub last_active : ℕ
  pub turn_count : ℕ
  pub closed : Bool
  pub model_level : Option ℕ

unfoldable pub session_metadata : Session → Metadata
session_metadata s = record {
  session_id = s.session_id;
  title = s.title;
  last_active = s.wall_last_active;
  turn_count = s.turn_count;
  closed = s.closed;
  model_level = s.model_level;
}

unfoldable pub metadata_of : List String → Dict Session → List Metadata
unfolding session_metadata
metadata_of [] sessions = []
metadata_of (id ∷ ids) sessions = elim (get id sessions) [
  | none ↦ metadata_of ids sessions
  | some s ↦ session_metadata s ∷ metadata_of ids sessions
]

-- `result.sort(key=last_active, reverse=True)`, which keeps equal ones in order.
unfoldable pub insert_newest : Metadata → List Metadata → List Metadata
insert_newest m [] = m ∷ []
insert_newest m (n ∷ ns) =
    if leb n.last_active m.last_active then m ∷ n ∷ ns else n ∷ insert_newest m ns

unfoldable pub newest_first : List Metadata → List Metadata
unfolding insert_newest
newest_first [] = []
newest_first (m ∷ ms) = insert_newest m (newest_first ms)

unfoldable pub list_sessions :
    String → Bool → String → ConversationStore → ConversationStore × List Metadata × String
unfolding metadata_of newest_first
list_sessions owner create_default fresh c =
    let key = canonical_owner_id owner in
    elim (get key c.owners) [
      | none ↦
          let s = new_session fresh c.now in
          if create_default
          then (
            persist (evict_overflow (with_owner key (sole fresh) (with_session fresh s c))),
            session_metadata s ∷ [],
            fresh,
          )
          else (c, [], "")
      | some o ↦ (c, newest_first (metadata_of o.session_ids c.sessions), o.active_session_id)
    ]

-- The session that `register_session` leaves.
abbrev pub registered : String → Option String → ℕ → Option Session → Session
registered id title now none = record (new_session id now) { title = or_else title default_title }
registered id none now (some s) = s
registered id (some title) now (some s) = record s {
  title = if s.turn_count == 0 then title else s.title;
}

abbrev pub joined : String → Bool → Option OwnerState → OwnerState
joined id make_active none = sole id
joined id make_active (some o) = record {
  active_session_id = if make_active then id else o.active_session_id;
  session_ids = set_add id o.session_ids;
}

unfoldable pub register_session :
    String → String → Option String → Bool → ConversationStore → ConversationStore
register_session owner id title make_active c =
    let key = canonical_owner_id owner in
    let s = registered id title c.now (get id c.sessions) in
    persist (
      evict_overflow (
        with_owner key (joined id make_active (get key c.owners))
          (to_end id (with_session id s c))))

unfoldable pub create_session : String → String → ConversationStore → ConversationStore × Metadata
unfolding session_metadata
create_session owner fresh c =
    let key = canonical_owner_id owner in
    let s = new_session fresh c.now in
    (
      persist (
          evict_overflow (
            to_end fresh
              (with_owner key (joined fresh true (get key c.owners)) (with_session fresh s c)))),
      session_metadata s,
    )

-- `max(remaining, key=wall_last_active)`: the first of the largest.
abbrev pub later : Session → Option Session → Session
later s none = s
later s (some t) = if ltb s.wall_last_active t.wall_last_active then t else s

unfoldable pub newest : List String → Dict Session → Option Session
newest [] sessions = none
newest (id ∷ ids) sessions =
    let rest = newest ids sessions in
    elim (get id sessions) [ none ↦ rest | some s ↦ some (later s rest) ]

abbrev pub forget_unowned : String → ConversationStore → ConversationStore
forget_unowned id c =
    if is_empty (owner_ids_for id c.owners) then record c { sessions = remove id c.sessions } else c

-- The replacement of an active session that was deleted, from the owner's state without it.
abbrev pub replace_active :
    String → Bool → String → OwnerState → ConversationStore → ConversationStore
replace_active key create_replacement fresh o c = elim (newest o.session_ids c.sessions) [
  | some s ↦ with_owner key (record o { active_session_id = s.session_id }) c
  | none ↦
      if create_replacement
      then evict_overflow (
          with_owner key
            (record { active_session_id = fresh; session_ids = set_add fresh o.session_ids })
            (to_end fresh (with_session fresh (new_session fresh c.now) c)))
      else with_owner key (record o { active_session_id = "" }) c
]

abbrev pub active_of : String → ConversationStore → String
active_of key c = elim (get key c.owners) [ none ↦ "" | some o ↦ o.active_session_id ]

-- After `owner.session_ids.discard(session_id)`.
abbrev pub delete_owned :
    String → String → Bool → String → OwnerState → ConversationStore → ConversationStore
delete_owned key id create_replacement fresh o c =
    let o' = record o { session_ids = discard id o.session_ids } in
    let left = forget_unowned id (with_owner key o' c) in
    if str_eq o.active_session_id id
    then replace_active key create_replacement fresh o' left
    else left

unfoldable pub delete_session :
    String → String → Bool → String → ConversationStore → ConversationStore × Bool × String
unfolding newest
delete_session owner id create_replacement fresh c =
    let key = canonical_owner_id owner in
    elim (get key c.owners) [
      | none ↦ (c, false, "")
      | some o ↦
          let left = delete_owned key id create_replacement fresh o c in
          if elem id o.session_ids
          then (persist left, true, active_of key left)
          else (c, false, o.active_session_id)
    ]

unfoldable pub close_session : String → String → ConversationStore → ConversationStore × Bool
close_session owner id c = elim (get (canonical_owner_id owner) c.owners) [
  | none ↦ (c, false)
  | some o ↦
      if elem id o.session_ids then changed id (λ s. record s { closed = true }) c else (c, false)
]
