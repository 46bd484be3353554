-- ===== src/Chat/Sessions/Compaction/Summaries.antt =====
-- What a compaction and a repair of a lost summary change.
use Prim.Native.String
use robotsix_chat.Base.{
  ℕ, String, true, false, Option, some, ◌∷◌, drop, str_eq, eq_iff, ◌≡◌, refl, sym, ap, ◌∙◌, arith,
  if◌then◌else◌,
}
use robotsix_chat.Base.Dict.{get}
use robotsix_chat.Base.Dict.Laws.{get-put}
use robotsix_chat.Chat.Conversation.{
  Session, larger, first_replayed, agent_view, has_new_input_since_trim,
}
use robotsix_chat.Chat.Sessions.{ConversationStore, persist}
use robotsix_chat.Chat.Sessions.Turns.{with_session, changed, agent_history, history}
use robotsix_chat.Chat.Sessions.Compaction.{
  covered_to, compacted, compact_session, backfill_compacted_summary, has_new_input,
}

pub sessions-persist : (c : ConversationStore) → (persist c).sessions ≡ c.sessions
unfolding persist
sessions-persist c = ground arith

pub get-persist :
    (id other : String) (s : Session) (c : ConversationStore)
    → get other (persist (with_session id s c)).sessions
      ≡ (if str_eq id other then some s else get other c.sessions)
get-persist id other s c =
    rw (sessions-persist (with_session id s c)) (get-put other id s c.sessions)

pub changed-some :
    (id : String) (f : Session → Session) (s : Session) (c : ConversationStore)
    → get id c.sessions ≡ some s
    → changed id f c ≡ (persist (with_session id (f s) c), true)
changed-some id f s c found = rw (changed, found) refl

-- The turn that stands for a summary.
abbrev pub summary_turn : String → String × String
summary_turn summary =
    ("", String.◌++◌ "[Summary of the earlier part of this conversation]\n" summary)

larger_swap : (a b d : ℕ) → larger (larger a d) b ≡ larger (larger a b) d
larger_swap a b d = ground arith

-- What a repair gives back where there is a summary.
refused :
    (id text summary : String) (s : Session) (c : ConversationStore)
    → get id c.sessions ≡ some s
    → s.compacted_summary ≡ some summary
    → str_eq summary "" ≡ false
    → backfill_compacted_summary id text c ≡ (c, false)
unfolding backfill_compacted_summary
refused id text summary s c found e given =
    rw (backfill_compacted_summary, found, e) (ground (arith, given))

-- What the readers give for a session that was written.
module _ (id : String) (s : Session) (c : ConversationStore)
    (found : get id c.sessions ≡ some s) where
  agent_history-some : agent_history id c ≡ agent_view s
  unfolding agent_history
  agent_history-some = rw (agent_history, found) refl

  history-some : history id c ≡ s.turns
  unfolding history
  history-some = rw (history, found) refl

  has_new_input-some : has_new_input id c ≡ has_new_input_since_trim s
  unfolding has_new_input
  has_new_input-some = rw (has_new_input, found) refl

agent_view-summary :
    (summary : String) (s : Session)
    → s.compacted_summary ≡ some summary
    → str_eq summary "" ≡ false
    → agent_view s ≡ summary_turn summary ∷ drop (first_replayed s) s.turns
unfolding agent_view
agent_view-summary summary s e given = rw (e, given) refl

module _ (id summary : String) (keep : ℕ) (cover : Option ℕ) (c : ConversationStore) (s : Session)
    (found : get id c.sessions ≡ some s) (given : str_eq summary "" ≡ false) where
  abbrev made : Session
  made = compacted c.now summary keep cover s

  get-compact_session :
      (other : String)
      → get other (compact_session id summary keep cover c).sessions
        ≡ (if str_eq id other then some made else get other c.sessions)
  unfolding compact_session
  get-compact_session other =
      rw (given, changed-some id (compacted c.now summary keep cover) s c found)
        (get-persist id other made c)

  here : get id (compact_session id summary keep cover c).sessions ≡ some made
  here = ground (arith, get-compact_session id, eq_iff id id)

  -- A compaction of a session with a summary that is not empty makes the agent see that summary and
  -- then exactly the turns from the first one that was shown before and is not covered by it. The
  -- transcript and the other sessions stay, nothing is left to compact before new input, and a repair
  -- is refused.
  pub session_compacted :
      (agent_history id (compact_session id summary keep cover c)
        ≡ summary_turn summary ∷ drop (larger (first_replayed s) (covered_to keep cover s)) s.turns)
      × (history id (compact_session id summary keep cover c) ≡ history id c)
      × (has_new_input id (compact_session id summary keep cover c) ≡ false)
      × ((other : String)
          → str_eq id other ≡ false
          → get other (compact_session id summary keep cover c).sessions ≡ get other c.sessions)
      × ((text : String)
          → backfill_compacted_summary id text (compact_session id summary keep cover c)
            ≡ (compact_session id summary keep cover c, false))
  unfolding has_new_input_since_trim
  session_compacted =
      let d = compact_session id summary keep cover c in
      (
        agent_history-some id made d here
            ∙ agent_view-summary summary made refl given
            ∙ ap (λ n. summary_turn summary ∷ drop n s.turns)
                (larger_swap s.compacted_turn_index s.trimmed_turn_index (covered_to keep cover s)),
        history-some id made d here ∙ sym (history-some id s c found),
        has_new_input-some id made d here ∙ ground arith,
        λ other e. ground (arith, get-compact_session other, e),
        λ text. refused id text summary made d here refl given,
      )
