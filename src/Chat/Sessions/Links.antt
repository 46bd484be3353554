-- ===== src/Chat/Sessions/Links.antt =====
-- `resolve_session` and `recent_activity` of ConversationStore in
-- src/robotsix_chat/chat/conversation.py. The walk along the links takes fuel.
pub mod Resolved
use robotsix_chat.Base.{
  ℕ, zero, suc, String, Bool, true, false, Option, none, some, List, [], ◌∷◌, length, last_n, elem,
  ◌==◌, if◌then◌else◌,
}
use robotsix_chat.Base.Dict.{Dict, get}
use robotsix_chat.Chat.Conversation.{Session, from_end}
use robotsix_chat.Chat.Sessions.{OwnerState, ConversationStore, owner_for_session}
use robotsix_chat.Chat.SessionFile.{or_else}

-- The session that an old compaction went on in.
abbrev pub next_link : Option Session → Option String
next_link none = none
next_link (some s) = s.compacted_into

-- `none` only where the fuel runs out.
unfoldable pub follow : ℕ → List String → String → Dict Session → Option String
follow zero seen current sessions = none
follow (suc fuel) seen current sessions = elim (elem current seen) [
  | true ↦ some current
  | false ↦ elim (next_link (get current sessions)) [
    | none ↦ some current
    | some next ↦ follow fuel (current ∷ seen) next sessions
  ]
]

unfoldable pub resolve_session : String → ConversationStore → Option String
unfolding follow
resolve_session id c = follow (suc (suc (length c.sessions))) [] id c.sessions

pub record Activity : Type 0 where
  pub client_id : String
  pub session_id : String
  pub turns : List (String × String)

unfoldable pub activities : ℕ → ℕ → Dict Session → Dict OwnerState → List Activity
activities zero max_turns sessions owners = []
activities (suc limit) max_turns [] owners = []
activities (suc limit) max_turns ((id, s) ∷ rest) owners =
    record {
      client_id = or_else (owner_for_session id owners) id;
      session_id = id;
      turns = from_end max_turns s.turns;
    }
    ∷ activities limit max_turns rest owners

abbrev pub reversed {ℓ} : {A : Type ℓ} → List A → List A → List A
reversed [] done = done
reversed (x ∷ xs) done = reversed xs (x ∷ done)

unfoldable pub recent_activity : ℕ → ℕ → ConversationStore → List Activity
unfolding activities
recent_activity limit max_turns c = activities limit max_turns (reversed c.sessions []) c.owners
