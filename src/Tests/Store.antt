-- ===== src/Tests/Store.antt =====
-- The conversation store and the spawn, at concrete states.
use robotsix_chat.Base.{
  ℕ, String, true, false, none, some, List, [], ◌∷◌, ◌≡◌, refl, sym, subst, arith, inl, inr,
  Bool-cases, eq_iff, elem, drop, str_eq, if◌then◌else◌,
}
use robotsix_chat.Base.Dict.{Dict, get, keys}
use robotsix_chat.Chat.Conversation.{Session}
use robotsix_chat.Chat.Conversation.Turns.{IsAligned}
use robotsix_chat.Chat.SessionFile.{Reader}
use robotsix_chat.Chat.Sessions.{
  ConversationStore, OwnerState, FileContent, new_session, persist, canonical_owner_id,
}
use robotsix_chat.Chat.Sessions.Loading.{load, loaded}
use robotsix_chat.Chat.Sessions.Turns.{agent_history, history}
use robotsix_chat.Chat.Sessions.Compaction.{
  compact_session, has_new_input, backfill_compacted_summary,
}
use robotsix_chat.Chat.Sessions.Compaction.Summaries.{session_compacted, summary_turn}
use robotsix_chat.Chat.Sessions.Links.{resolve_session}
use robotsix_chat.Chat.Sessions.Links.Resolved.{EndsAt, resolve_ends}
use robotsix_chat.Chat.Sessions.Sound.{IsSound}
use robotsix_chat.Chat.Sessions.Sound.Kept.{StoreOp, run, store-IsSound}
use robotsix_chat.Chat.Sessions.Restart.{is_held, Readable, AreOwners, SameOwner}
use robotsix_chat.Chat.Sessions.Restart.Restored.{restored}

abbrev asked : Session
asked = record (new_session "s1" 5) {
  title = "Two questions";
  turns = ("first", "one") ∷ ("second", "two") ∷ [];
  actions = [] ∷ ("a tool" ∷ []) ∷ [];
  turn_count = 2;
  model_level = some 2;
}

-- An operator with one session that was compacted long ago into one that is gone.
abbrev chats : ConversationStore
chats = record {
  max_history_turns = 3;
  max_conversations = 2;
  now = 10;
  sessions =
      ("s1", asked) ∷ ("s0", record (new_session "s0" 1) { compacted_into = some "s1" }) ∷ [];
  owners = ("operator", record { active_session_id = "s1"; session_ids = "s0" ∷ "s1" ∷ [] }) ∷ [];
  has_serializer = true;
  writable = true;
  file = FileContent.missing;
}

IsAligned-new :
    (id : String) → IsAligned 3 (record (new_session id 1) { compacted_into = some "s1" })
IsAligned-new id = record {
  same_length = refl;
  compacted_le = omega arith;
  trimmed_le = omega arith;
  capped = omega arith;
}

IsAligned-asked : IsAligned 3 asked
IsAligned-asked = record {
  same_length = refl;
  compacted_le = omega arith;
  trimmed_le = omega arith;
  capped = omega arith;
}

chats-IsSound : IsSound chats
unfolding keys
chats-IsSound = record {
  linked = record {
    good = ((refl, IsAligned-asked), ((refl, IsAligned-new "s0"), record {}));
    refers = (λ id m. ground (arith, m), record {});
    positive = omega arith;
  };
  bounded = omega arith;
}

-- A session too many, a turn in it, and its deletion.
abbrev some_ops : List (ℕ × StoreOp)
some_ops =
    (11, StoreOp.creates "a browser" "s2")
    ∷ (12, StoreOp.records "s2" (some "a browser") "hello" "hi" [])
    ∷ (13, StoreOp.deletes "another browser" "s2" true "s3")
    ∷ []

store-IsSound_example : IsSound (run some_ops chats)
store-IsSound_example = store-IsSound some_ops chats chats-IsSound

resolve_ends_example :
    (last : String) × (resolve_session "s0" chats ≡ some last) × EndsAt chats.sessions "s0" last
resolve_ends_example = resolve_ends "s0" chats

session_compacted_example :
    let d = compact_session "s1" "so far" 1 none chats in
    (agent_history "s1" d ≡ summary_turn "so far" ∷ drop 1 asked.turns)
    × (history "s1" d ≡ history "s1" chats)
    × (has_new_input "s1" d ≡ false)
    × ((other : String)
        → str_eq "s1" other ≡ false
        → get other d.sessions ≡ get other chats.sessions)
    × ((text : String) → backfill_compacted_summary "s1" text d ≡ (d, false))
unfolding get
session_compacted_example = session_compacted "s1" "so far" 1 none chats asked refl refl

abbrev reader : Reader
reader = record { str_of = λ v. ""; int_of = λ s. none; model_levels = 1 ∷ 2 ∷ 3 ∷ [] }

chats-Readable :
    (id : String) → elem id ("s0" ∷ "s1" ∷ []) ≡ true → Readable reader 3 20 chats.sessions id
unfolding get
chats-Readable id m = elim (Bool-cases (str_eq id "s0")) [
  | inl e ↦ subst (Readable reader 3 20 chats.sessions) (sym ((eq_iff id "s0").0 e)) (
    record (new_session "s0" 1) { compacted_into = some "s1" },
    refl,
    refl,
    IsAligned-new "s0",
    record {},
  )
  | inr n ↦ elim (Bool-cases (str_eq id "s1")) [
    | inl e ↦
        subst (Readable reader 3 20 chats.sessions) (sym ((eq_iff id "s1").0 e))
          (asked, refl, refl, IsAligned-asked, refl)
    | inr k ↦ absurd (ground (arith, m, n, k))
  ]
]

chats-AreOwners : AreOwners reader 3 20 chats.sessions chats.owners
unfolding get canonical_owner_id
chats-AreOwners = (refl, refl, chats-Readable, record {})

restored_example :
    (sessions' : Dict Session) × (owners' : Dict OwnerState) × (load reader 3 20
        (persist chats).file
      ≡ loaded sessions' owners')
    × ((id : String)
        → get id sessions' ≡ (if is_held id chats.owners then get id chats.sessions else none))
    × ((owner id : String) (o : OwnerState)
        → get owner chats.owners ≡ some o
        → elem id o.session_ids ≡ true
        → (o' : OwnerState) × (get owner owners' ≡ some o') × SameOwner o o')
    × ((owner : String) → get owner chats.owners ≡ none → get owner owners' ≡ none)
restored_example = restored reader 20 chats refl refl chats-AreOwners
