-- ===== src/Subsessions/Replies.antt =====
-- The sentinels of a periodic reply in src/robotsix_chat/subsessions/worker_errors.py. Python's `upper` and
-- `casefold` are inputs.
use Prim.Native.Char.{code}
use robotsix_chat.Base.{
  String, Bool, true, false, ◌&&◌, Option, none, some, List, [], ◌∷◌, any_if, ◌==◌, str_eq,
}
use robotsix_chat.Chat.Titles.{is_space, rstrip}

unfoldable pub lstrip : String → String
lstrip String.[] = String.[]
lstrip (String.◌∷◌ c s) =
    let rest = lstrip s in elim (is_space (code c)) [ true ↦ rest | false ↦ String.◌∷◌ c s ]

-- `s.strip()`
abbrev pub strip : String → String
strip s = rstrip (lstrip s)

unfoldable pub starts_with : String → String → Bool
starts_with String.[] s = true
starts_with (String.◌∷◌ c p) String.[] = false
starts_with (String.◌∷◌ c p) (String.◌∷◌ d s) = (code c == code d) && starts_with p s

-- The sentinel, and the phrases.
abbrev pub no_change_phrases : List String
no_change_phrases =
    "NO_CHANGE" ∷ "NO CHANGE" ∷ "NO CHANGES" ∷ "NOTHING CHANGED" ∷ "NOTHING HAS CHANGED"
    ∷ "NO UPDATES" ∷ "UNCHANGED" ∷ "NO NEW" ∷ "EVERYTHING IS THE SAME" ∷ "ALL QUIET"
    ∷ "STATUS UNCHANGED" ∷ "NO SIGNIFICANT CHANGE" ∷ "NO MEANINGFUL CHANGE" ∷ []

abbrev pub queued_phrases : List String
queued_phrases =
    "QUEUED" ∷ "QUEUED FOR IMPLEMENTATION" ∷ "WAITING FOR IMPLEMENTATION" ∷ "IN QUEUE"
    ∷ "IMPLEMENTATION QUEUED" ∷ "AWAITING IMPLEMENTATION" ∷ "PENDING IMPLEMENTATION" ∷ []

unfoldable pub is_no_change : (String → String) → String → Bool
is_no_change upper reply = any_if (λ p. starts_with p (upper (strip reply))) no_change_phrases

unfoldable pub is_queued : (String → String) → String → Bool
is_queued upper reply = any_if (λ p. starts_with p (upper (strip reply))) queued_phrases

unfoldable pub is_duplicate_reply : (String → String) → String → Option String → Bool
is_duplicate_reply casefold reply none = false
is_duplicate_reply casefold reply (some previous) =
    str_eq (casefold (strip reply)) (casefold (strip previous))
