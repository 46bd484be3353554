-- ===== src/Chat/Conversation.antt =====
-- The turns of one session in src/robotsix_chat/chat/conversation.py: what `record` appends, what the
-- agent is shown, and what an automatic trim removes.
pub mod Turns
use Prim.Native.String
use robotsix_chat.Base.{
  ℕ, zero, suc, ◌+◌, ◌-◌, String, Bool, true, false, Option, none, some, List, [], ◌∷◌, ◌++◌,
  length, drop, last_n, ltb, leb, ◌==◌, str_eq, if◌then◌else◌,
}

pub record Session : Type 0 where
  pub session_id : String
  pub title : String
  pub wall_last_active : ℕ
  pub turns : List (String × String)
  pub actions : List (List String)
  pub turn_count : ℕ
  pub closed : Bool
  pub compacted_summary : Option String
  pub compacted_turn_index : ℕ
  pub model_level : Option ℕ
  pub compacted_into : Option String
  pub trimmed_turn_index : ℕ
  pub last_trim_turn_count : ℕ

abbrev pub larger : ℕ → ℕ → ℕ
larger a b = if ltb a b then b else a

abbrev pub smaller : ℕ → ℕ → ℕ
smaller a b = if ltb a b then a else b

-- What is left of a list after `del xs[:-n]`, and `xs[-n:]`: all of it where `n` is 0.
abbrev pub from_end {ℓ} : {A : Type ℓ} → ℕ → List A → List A
from_end n xs = if n == 0 then xs else last_n n xs

abbrev pub empties : ℕ → List (List String)
empties zero = []
empties (suc n) = [] ∷ empties n

unfoldable pub aligned_actions : Session → List (List String)
aligned_actions s =
    if length s.actions == length s.turns
    then s.actions
    else if ltb (length s.turns) (length s.actions)
    then from_end (length s.turns) s.actions
    else s.actions ++ empties (length s.turns - length s.actions)

-- The part of `record` from `_aligned_actions` to the turn count.
unfoldable pub append_turn : ℕ → String × String → List String → Session → Session
unfolding aligned_actions
append_turn max_history_turns turn actions s =
    let turns = s.turns ++ turn ∷ [] in
    let logged = aligned_actions s ++ actions ∷ [] in
    let trimmed = length turns - max_history_turns in
    let over = ltb max_history_turns (length turns) in
    record s {
      turns = if over then from_end max_history_turns turns else turns;
      actions = if over then from_end max_history_turns logged else logged;
      compacted_turn_index =
          if over then s.compacted_turn_index - trimmed else s.compacted_turn_index;
      trimmed_turn_index = if over then s.trimmed_turn_index - trimmed else s.trimmed_turn_index;
      turn_count = s.turn_count + 1;
    }

-- The first turn that is replayed.
abbrev pub first_replayed : Session → ℕ
first_replayed s = larger s.compacted_turn_index s.trimmed_turn_index

abbrev pub with_summary : Option String → List (String × String) → List (String × String)
with_summary none history = history
with_summary (some summary) history =
    if str_eq summary ""
    then history
    else ("", String.◌++◌ "[Summary of the earlier part of this conversation]\n" summary) ∷ history

-- `_agent_view`
unfoldable pub agent_view : Session → List (String × String)
agent_view s = with_summary s.compacted_summary (drop (first_replayed s) s.turns)

unfoldable pub has_new_input_since_trim : Session → Bool
has_new_input_since_trim s = ltb s.last_trim_turn_count s.turn_count

-- `target` of `trim_session`.
abbrev pub trim_target : ℕ → ℕ → Session → ℕ
trim_target new_trimmed_index keep_min_recent s =
    larger s.trimmed_turn_index (smaller new_trimmed_index (length s.turns - keep_min_recent))

-- `trim_session` on a session that is there; `now` is the clock.
unfoldable pub trim_session : ℕ → ℕ → ℕ → Session → Session
trim_session now new_trimmed_index keep_min_recent s =
    let target = trim_target new_trimmed_index keep_min_recent s in
    let overtaken = leb s.compacted_turn_index target in
    record s {
      trimmed_turn_index = target;
      compacted_summary = if overtaken then none else s.compacted_summary;
      compacted_turn_index = if overtaken then target else s.compacted_turn_index;
      last_trim_turn_count = s.turn_count;
      wall_last_active = now;
    }
