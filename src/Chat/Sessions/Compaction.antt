-- ===== src/Chat/Sessions/Compaction.antt =====
-- The operations of ConversationStore in src/robotsix_chat/chat/conversation.py that shorten what the
-- agent is shown: compaction, the repair of a lost summary, and trimming.
pub mod Summaries
use robotsix_chat.Base.{
  ℕ, zero, suc, ◌-◌, String, Bool, true, false, Option, none, some, List, [], ◌∷◌, length, leb, ltb,
  str_eq, if◌then◌else◌,
}
use robotsix_chat.Base.Dict.{get}
use robotsix_chat.Chat.Conversation
use robotsix_chat.Chat.Conversation.{Session, larger, smaller, aligned_actions}
use robotsix_chat.Chat.Sessions.{ConversationStore, persist}
use robotsix_chat.Chat.Sessions.Turns.{with_session, changed}

-- `new_index`
abbrev pub covered_to : ℕ → Option ℕ → Session → ℕ
covered_to keep none s = length s.turns - smaller keep (length s.turns)
covered_to keep (some cover) s = smaller cover (length s.turns)

abbrev pub compacted : ℕ → String → ℕ → Option ℕ → Session → Session
compacted now summary keep cover s = record s {
  compacted_summary = some summary;
  compacted_turn_index = larger s.compacted_turn_index (covered_to keep cover s);
  last_trim_turn_count = s.turn_count;
  wall_last_active = now;
}

-- `compact_session`, less the dict that it returns.
unfoldable pub compact_session :
    String → String → ℕ → Option ℕ → ConversationStore → ConversationStore
compact_session id summary keep cover c =
    if str_eq summary "" then c else (changed id (compacted c.now summary keep cover) c).0

-- `list[:n]`
abbrev pub first_n {ℓ} : {A : Type ℓ} → ℕ → List A → List A
first_n zero xs = []
first_n (suc n) [] = []
first_n (suc n) (x ∷ xs) = x ∷ first_n n xs

unfoldable pub compacted_covered_turns :
    String → ConversationStore → List (String × String) × List (List String)
compacted_covered_turns id c = elim (get id c.sessions) [
  | none ↦ ([], [])
  | some s ↦
      (first_n s.compacted_turn_index s.turns, first_n s.compacted_turn_index (aligned_actions s))
]

abbrev pub has_summary : Option String → Bool
has_summary none = false
has_summary (some summary) = if str_eq summary "" then false else true

unfoldable pub backfill_compacted_summary :
    String → String → ConversationStore → ConversationStore × Bool
backfill_compacted_summary id summary c = elim (get id c.sessions) [
  | none ↦ (c, false)
  | some s ↦
      if str_eq summary ""
      then (c, false)
      else if has_summary s.compacted_summary
      then (c, false)
      else if leb s.compacted_turn_index s.trimmed_turn_index
      then (c, false)
      else changed id (λ t. record t { compacted_summary = some summary }) c
]

unfoldable pub has_new_input : String → ConversationStore → Bool
has_new_input id c = elim (get id c.sessions) [
  | none ↦ false
  | some s ↦ Conversation.has_new_input_since_trim s
]

-- `trim_session`, with the flag `trimmed` of the dict that it returns.
unfoldable pub trim : String → ℕ → ℕ → ConversationStore → ConversationStore × Bool
trim id new_trimmed_index keep_min_recent c = elim (get id c.sessions) [
  | none ↦ (c, false)
  | some s ↦ (
    (changed id (Conversation.trim_session c.now new_trimmed_index keep_min_recent) c).0,
    ltb s.trimmed_turn_index (Conversation.trim_target new_trimmed_index keep_min_recent s),
  )
]
