-- ===== src/Chat/Sessions/Links/Resolved.antt =====
-- Where the links of old compactions lead.
use robotsix_chat.Base.{
  ℕ, zero, suc, ◌+◌, ◌≤◌, ◌<◌, String, true, false, not, none, some, List, [], ◌∷◌, length, elem,
  count_if, eq_iff, ◌≡◌, ◌⊎◌, refl, ap, arith, Bool-cases, Option-cases, inl, inr, elem-cons, subst,
}
use robotsix_chat.Base.Dict.{Dict, get, keys}
use robotsix_chat.Base.Dict.Laws.{elem-keys}
use robotsix_chat.Chat.Conversation.{Session}
use robotsix_chat.Chat.Sessions.{ConversationStore}
use robotsix_chat.Chat.Sessions.Links.{next_link, follow, resolve_session}

-- A path of links.
pub data Leads (sessions : Dict Session) : String → String → Type 0 where
  stays : (id : String) → Leads sessions id id
  goes :
      (a b c : String)
      → next_link (get a sessions) ≡ some b
      → Leads sessions b c
      → Leads sessions a c

-- The keys that were not seen.
abbrev unseen : List String → List String → ℕ
unseen seen ks = count_if (λ (k : String). not (elem k seen)) ks

unseen_le : (seen ks : List String) (id : String) → unseen (id ∷ seen) ks ≤ unseen seen ks
unseen_le seen [] id = omega arith
unseen_le seen (k ∷ ks) id = ground (arith, unseen_le seen ks id)

unseen_lt :
    (seen ks : List String) (id : String)
    → elem id seen ≡ false
    → elem id ks ≡ true
    → unseen (id ∷ seen) ks < unseen seen ks
unseen_lt seen [] id h m = absurd (cc m)
unseen_lt seen (k ∷ ks) id h m =
    ground (arith, unseen_le seen ks id, unseen_lt seen ks id, eq_iff id k, eq_iff k id)

unseen_all : (ks : List String) → unseen [] ks ≤ length ks
unseen_all [] = omega arith
unseen_all (k ∷ ks) = omega (arith, unseen_all ks)

length-keys : (d : Dict Session) → length (keys d) ≡ length d
unfolding keys
length-keys [] = refl
length-keys ((k, v) ∷ d) = ap suc (length-keys d)

Leads-on :
    {sessions : Dict Session} {a b : String} (c : String)
    → Leads sessions a b
    → next_link (get b sessions) ≡ some c
    → Leads sessions a c
Leads-on c (stays a) n = goes a c c n (stays c)
Leads-on c (goes a d b m rest) n = goes a d c m (Leads-on c rest n)

is_key :
    (sessions : Dict Session) (id next : String)
    → next_link (get id sessions) ≡ some next
    → elem id (keys sessions) ≡ true
is_key sessions id next n = elim (Option-cases (get id sessions)) [
  | inl e ↦ absurd (ground (arith, n, e))
  | inr (s, e) ↦ elem-keys id s sessions e
]

-- One link or more leads from a session back to it.
abbrev pub OnCycle : Dict Session → String → Type 0
OnCycle sessions id =
    (next : String) × (next_link (get id sessions) ≡ some next) × Leads sessions next id

-- What was seen leads by one link or more to where the walk is.
abbrev LedHere : Dict Session → List String → String → Type 0
LedHere sessions seen id =
    (a : String)
    → elem a seen ≡ true
    → (next : String) × (next_link (get a sessions) ≡ some next) × Leads sessions next id

abbrev pub EndsAt : Dict Session → String → String → Type 0
EndsAt sessions id last =
    Leads sessions id last × ((next_link (get last sessions) ≡ none) ⊎ OnCycle sessions last)

led_on :
    (sessions : Dict Session) (seen : List String) (id next : String)
    → next_link (get id sessions) ≡ some next
    → LedHere sessions seen id
    → LedHere sessions (id ∷ seen) next
led_on sessions seen id next n led a m = elim (elem-cons a id seen m) [
  | inl e ↦ (next, subst (λ x. next_link (get x sessions) ≡ some next) e n, stays next)
  | inr old ↦ let (b, link, path) = led a old in (b, link, Leads-on next path n)
]

follow_ends :
    (sessions : Dict Session) (fuel : ℕ) (seen : List String) (id : String)
    → unseen seen (keys sessions) + 1 < fuel
    → LedHere sessions seen id
    → (last : String) × (follow fuel seen id sessions ≡ some last) × EndsAt sessions id last
unfolding follow
follow_ends sessions zero seen id h led = absurd (omega (arith, h))
follow_ends sessions (suc fuel) seen id h led = elim (Bool-cases (elem id seen)) [
  | inl e ↦ (id, rw (follow, e) refl, (stays id, inr (led id e)))
  | inr e ↦ elim (Option-cases (next_link (get id sessions))) [
    | inl n ↦ (id, rw (follow, e, n) refl, (stays id, inl n))
    | inr (next, n) ↦
        let (last, found, (path, end)) =
          follow_ends sessions fuel (id ∷ seen) next
            (omega (arith, unseen_lt seen (keys sessions) id e (is_key sessions id next n), h))
            (led_on sessions seen id next n led) in
        (last, rw (follow, e, n) found, (goes id next last n path, end))
  ]
]

-- The walk along the links of old compactions ends, at a session that they lead to from the first
-- one, and which has no such link or lies on a cycle of them.
pub resolve_ends :
    (id : String) (c : ConversationStore)
    → (last : String) × (resolve_session id c ≡ some last) × EndsAt c.sessions id last
unfolding resolve_session
resolve_ends id c =
    follow_ends c.sessions (suc (suc (length c.sessions))) [] id
      (omega (arith, unseen_all (keys c.sessions), length-keys c.sessions)) (λ a m. absurd (cc m))
