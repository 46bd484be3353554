-- ===== src/Chat/EventBus.antt =====
-- `EventBus` of src/robotsix_chat/chat/events.py: the frames that each subscriber's queue has been
-- given, and the foreground turn in flight of each session.
-- A queue is named by a number, and holds every frame ever put on it: what its reader takes out is
-- no concern of the bus. A set of queues is a list, the newest first.
pub mod Replay
pub mod Joined
use robotsix_chat.Base.{
  ℕ, suc, ◌+◌, String, Bool, true, false, Option, none, some, List, [], ◌∷◌, ◌++◌, map, length,
  str_eq, ◌==◌, is_empty, if◌then◌else◌,
}
use robotsix_chat.Base.Dict.{Dict, get, put, remove, get_or, values}

pub data BusFrame : Type 0 where
  -- session, turn, content, user message
  chat_turn_resume : String → String → List String → String → BusFrame
  chat_turn_started : String → String → String → BusFrame
  chat_token : String → String → String → BusFrame
  chat_turn_done : String → String → Option ℕ → BusFrame
  chat_turn_error : String → String → String → BusFrame
  -- any frame that does not belong to a foreground turn
  notification : String → BusFrame

pub record Queue : Type 0 where
  pub ident : ℕ
  pub frames : List BusFrame

-- (turn_id, [token, ...], user_message)
pub record Turn : Type 0 where
  pub turn_id : String
  pub parts : List String
  pub user_message : String

pub record EventBus : Type 0 where
  pub next_ident : ℕ
  pub subscribers : Dict (List Queue)
  pub current_turn : Dict Turn

abbrev pub empty_bus : EventBus
empty_bus = record { next_ident = 0; subscribers = []; current_turn = [] }

-- `queue.put_nowait(frame)`
abbrev pub deliver : BusFrame → Queue → Queue
deliver frame q = record q { frames = q.frames ++ frame ∷ [] }

unfoldable pub publish : String → BusFrame → EventBus → EventBus
publish session frame b = elim (get session b.subscribers) [
  | none ↦ b
  | some qs ↦ record b { subscribers = put session (map (deliver frame) qs) b.subscribers }
]

abbrev pub deliver_everywhere : BusFrame → Dict (List Queue) → Dict (List Queue)
deliver_everywhere frame [] = []
deliver_everywhere frame ((session, qs) ∷ rest) =
    (session, map (deliver frame) qs) ∷ deliver_everywhere frame rest

unfoldable pub publish_all : BusFrame → EventBus → EventBus
publish_all frame b = record b { subscribers = deliver_everywhere frame b.subscribers }

abbrev pub primed : String → Option Turn → List BusFrame
primed session none = []
primed session (some t) = chat_turn_resume session t.turn_id t.parts t.user_message ∷ []

-- The new bus and the queue that is returned to the client.
unfoldable pub subscribe : String → EventBus → EventBus × ℕ
subscribe session b =
    let queue : Queue = record {
      ident = b.next_ident;
      frames = primed session (get session b.current_turn);
    } in
    (
      record b {
        next_ident = suc b.next_ident;
        subscribers = put session (queue ∷ get_or session [] b.subscribers) b.subscribers;
      },
      b.next_ident,
    )

unfoldable pub begin_turn : String → String → String → EventBus → EventBus
unfolding publish
begin_turn session turn user_message b =
    publish session (chat_turn_started session turn user_message) (record b {
      current_turn =
          put session (record { turn_id = turn; parts = []; user_message = user_message })
            b.current_turn;
    })

abbrev pub buffered : String → String → String → Option Turn → Dict Turn → Dict Turn
buffered session turn content none turns = turns
buffered session turn content (some t) turns =
    if str_eq t.turn_id turn
    then put session (record t { parts = t.parts ++ content ∷ [] }) turns
    else turns

unfoldable pub append_turn_token : String → String → String → EventBus → EventBus
unfolding publish
append_turn_token session turn content b =
    publish session (chat_token session turn content) (record b {
      current_turn = buffered session turn content (get session b.current_turn) b.current_turn;
    })

abbrev pub cleared : String → String → Option Turn → Dict Turn → Dict Turn
cleared session turn none turns = turns
cleared session turn (some t) turns = if str_eq t.turn_id turn then remove session turns else turns

abbrev pub turn_end : String → String → Option ℕ → Option String → BusFrame
turn_end session turn timestamp none = chat_turn_done session turn timestamp
turn_end session turn timestamp (some message) = chat_turn_error session turn message

unfoldable pub end_turn : String → String → Option ℕ → Option String → EventBus → EventBus
unfolding publish
end_turn session turn timestamp error b =
    publish session (turn_end session turn timestamp error)
      (record b { current_turn = cleared session turn (get session b.current_turn) b.current_turn })

abbrev pub without : ℕ → List Queue → List Queue
without n [] = []
without n (q ∷ qs) = if q.ident == n then without n qs else q ∷ without n qs

unfoldable pub unsubscribe : String → ℕ → EventBus → EventBus
unsubscribe session queue b = elim (get session b.subscribers) [
  | none ↦ b
  | some qs ↦
      let rest = without queue qs in
      record b {
        subscribers =
            if is_empty rest then remove session b.subscribers else put session rest b.subscribers;
      }
]

unfoldable pub subscriber_count : String → EventBus → ℕ
subscriber_count session b = length (get_or session [] b.subscribers)

abbrev total_length : List (List Queue) → ℕ
total_length [] = 0
total_length (qs ∷ rest) = length qs + total_length rest

unfoldable pub total_subscriber_count : EventBus → ℕ
total_subscriber_count b = total_length (values b.subscribers)
