-- ===== src/Chat/Idempotency.antt =====
-- src/robotsix_chat/chat/server/idempotency.py: for each session the replies to the messages that were
-- completed, at most a given number of them.
pub mod Capped
use robotsix_chat.Base.{
  ℕ, String, true, false, Option, none, some, List, [], ◌∷◌, length, ltb, if◌then◌else◌,
}
use robotsix_chat.Base.Dict.{Dict, get, put, get_or}

pub record MessageIdempotencyStore : Type 0 where
  pub max_per_session : ℕ
  pub store : Dict (Dict String)

unfoldable pub get_reply : String → String → MessageIdempotencyStore → Option String
get_reply session message m = elim (get session m.store) [
  | none ↦ none
  | some replies ↦ get message replies
]

-- `while len(sess) > self._max: sess.popitem(last=False)`
unfoldable pub evict : ℕ → Dict String → Dict String
evict max [] = []
evict max (entry ∷ rest) = elim (ltb max (length (entry ∷ rest))) [
  | true ↦ evict max rest
  | false ↦ entry ∷ rest
]

unfoldable pub mark_completed :
    String → String → String → MessageIdempotencyStore → MessageIdempotencyStore
unfolding evict
mark_completed session message reply m = record m {
  store =
      put session (evict m.max_per_session (put message reply (get_or session [] m.store))) m.store;
}
