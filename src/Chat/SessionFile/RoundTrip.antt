-- ===== src/Chat/SessionFile/RoundTrip.antt =====
-- What is written of a session is read back.
use robotsix_chat.Base.{
  ℕ, ◌-◌, ◌≤◌, String, true, false, Option, none, some, List, [], ◌∷◌, ◌++◌, map, length, ltb, ◌==◌,
  str_eq, if◌then◌else◌, ◌≡◌, refl, ap, ◌∙◌, arith, Bool-cases, inl, inr, append-nil,
}
use robotsix_chat.Chat.Conversation.{Session, empties, smaller}
use robotsix_chat.Chat.Conversation.Turns.{IsAligned}
use robotsix_chat.Chat.SessionFile.{
  Json, str, arr, lookup, present, items, elements, Reader, session_dict, session_entries,
  parse_session, read_session, parse_turns, parse_actions, turns_of, texts_of, turn_json,
  actions_json, action_entry, any_action, member, clamp_level, clamp_if, num_json, text_json,
  given_if, nonzero, as_int, or_else, exact_text, fit,
}

abbrev or_next : Option Json → Option Json → Option Json
or_next none next = next
or_next (some v) next = some v

abbrev first_of : String → List (String × Option Json) → Option Json
first_of k [] = none
first_of k ((j, o) ∷ es) = if str_eq j k then or_next o (first_of k es) else first_of k es

lookup-present :
    (k : String) (es : List (String × Option Json)) → lookup k (present es) ≡ first_of k es
unfolding lookup
lookup-present k [] = refl
lookup-present k ((j, none) ∷ es) = ground (arith, lookup-present k es)
lookup-present k ((j, some v) ∷ es) = ground (arith, lookup-present k es)

or_next-none : (o : Option Json) → or_next o none ≡ o
or_next-none none = refl
or_next-none (some v) = refl

turns_of-items :
    (r : Reader) (ts : List (String × String)) → turns_of r (items (map turn_json ts)) ≡ ts
turns_of-items r [] = refl
turns_of-items r ((a, b) ∷ ts) = ap (λ l. (a, b) ∷ l) (turns_of-items r ts)

texts_of-items : (l : List String) → texts_of (items (map str l)) ≡ l
texts_of-items [] = refl
texts_of-items (s ∷ l) = ap (λ m. s ∷ m) (texts_of-items l)

entries_back :
    (logs : List (List String)) → map action_entry (elements (items (map actions_json logs))) ≡ logs
entries_back [] = refl
entries_back (l ∷ logs) = cc (texts_of-items l, entries_back logs)

no_actions : (logs : List (List String)) → any_action logs ≡ false → empties (length logs) ≡ logs
no_actions [] e = refl
no_actions ([] ∷ logs) e = ap (λ m. [] ∷ m) (no_actions logs e)
no_actions ((a ∷ l) ∷ logs) e = absurd (cc e)

parse_turns_back :
    (r : Reader) (max : ℕ) (ts : List (String × String))
    → length ts ≤ max
    → parse_turns r max (some (arr (items (map turn_json ts)))) ≡ ts
unfolding parse_turns
parse_turns_back r max ts h =
    let b : ltb max (length ts) ≡ false = ground (arith, h) in rw (turns_of-items r ts) (rw b refl)

fit_same : (logs : List (List String)) → fit (length logs) logs ≡ logs
fit_same logs =
    let b : ltb (length logs) (length logs) ≡ false = ground arith in
    let z : length logs - length logs ≡ 0 = omega arith in
    rw b (ap (λ n. logs ++ empties n) z ∙ append-nil logs)

fit-nil : (n : ℕ) → fit n [] ≡ empties n
fit-nil n =
    let b : ltb n 0 ≡ false = ground arith in let z : n - 0 ≡ n = omega arith in rw b (ap empties z)

parse_actions_back :
    (logs : List (List String))
    → parse_actions (given_if (any_action logs) (arr (items (map actions_json logs)))) (length logs)
      ≡ logs
unfolding parse_actions
parse_actions_back logs = elim (Bool-cases (any_action logs)) [
  | inl e ↦ rw e (ap (fit (length logs)) (entries_back logs) ∙ fit_same logs)
  | inr e ↦ rw e (fit-nil (length logs) ∙ no_actions logs e)
]

num_back : (n : ℕ) → or_else (as_int (nonzero n)) 0 ≡ n
num_back n = elim (Bool-cases (n == 0)) [ inl e ↦ rw e (ground (arith, e)) | inr e ↦ rw e refl ]

text_back : (o : Option String) → exact_text (text_json o) ≡ o
text_back none = refl
text_back (some s) = refl

smaller_back : (n m : ℕ) → n ≤ m → smaller n m ≡ n
smaller_back n m h = ground (arith, h)

-- No level is set, or one of the library's.
abbrev pub IsLevel : Reader → Option ℕ → Type 0
IsLevel r none = Unit {0}
IsLevel r (some n) = member n r.model_levels ≡ true

level_back :
    (r : Reader) (o : Option ℕ) → IsLevel r o → clamp_if r.model_levels (as_int (num_json o)) ≡ o
unfolding clamp_level
level_back r none h = refl
level_back r (some n) h = rw h refl

module _ (r : Reader) (max now : ℕ) (s : Session) (h : IsAligned max s)
    (l : IsLevel r s.model_level) where
  at : (k : String) → lookup k (present (session_entries s)) ≡ first_of k (session_entries s)
  at k = lookup-present k (session_entries s)

  index_back :
      (n : ℕ) → n ≤ length s.turns → smaller (or_else (as_int (nonzero n)) 0) (length s.turns) ≡ n
  index_back n le = rw (num_back n) (smaller_back n (length s.turns) le)

  actions_back :
      parse_actions
        (given_if (any_action s.actions) (arr (items (map actions_json s.actions))))
        (length s.turns)
      ≡ s.actions
  actions_back = rw (← h.same_length) (parse_actions_back s.actions)

  -- Where the session's turns are aligned and its level is one of the library's, the entry that is
  -- written for a session is read back as that session.
  pub session_back : parse_session r max now (session_dict s) ≡ read_session s.session_id s
  unfolding parse_session session_dict
  session_back =
      rw
        (
          at "session_id",
          at "turns",
          at "turn_count",
          at "title",
          at "last_active",
          at "actions",
          at "closed",
          at "model_level",
          at "compacted_summary",
          at "compacted_turn_index",
          at "compacted_into",
          at "trimmed_turn_index",
          at "last_trim_turn_count",
        )
        (simp (or_next-none) (
          rw
            (
              parse_turns_back r max s.turns h.capped,
              actions_back,
              index_back s.compacted_turn_index h.compacted_le,
              index_back s.trimmed_turn_index h.trimmed_le,
              num_back s.last_trim_turn_count,
              text_back s.compacted_summary,
              text_back s.compacted_into,
              level_back r s.model_level l,
            )
            refl))
