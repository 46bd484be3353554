-- ===== src/Subsessions/Registry/Index.antt =====
-- The occupancy and slot queries of src/robotsix_chat/subsessions/registry_index.py.
pub mod Choice
use robotsix_chat.Base.{
  ℕ, ◌+◌, String, Bool, true, false, not, ◌&&◌, ◌||◌, Option, none, some, List, [], ◌∷◌, ◌++◌,
  str_eq, ltb, leb, ◌==◌, bit, if◌then◌else◌,
}
use robotsix_chat.Base.Dict.{Dict, get, get_or, count_values}
use robotsix_chat.Subsessions.Model.{
  SubsessionInfo, SubsessionStatus, is_active, is_paused, is_monitor,
}
use robotsix_chat.Subsessions.Registry.State.{Registry}

abbrev pub counts : SubsessionInfo → Bool
counts i = is_active i && not (is_paused i.status)

unfoldable pub count_active : Registry → ℕ
count_active r = count_values counts r.subs

abbrev pub owned_ids : String → Registry → List String
owned_ids owner r = get_or owner [] r.by_owner

abbrev test_found : (SubsessionInfo → Bool) → Option SubsessionInfo → Bool
test_found p none = false
test_found p (some i) = p i

-- `sum(1 for sub_id in sub_ids if ...)`
unfoldable pub count_ids : (SubsessionInfo → Bool) → List String → Registry → ℕ
count_ids p [] r = 0
count_ids p (id ∷ ids) r = bit (test_found p (get id r.subs)) + count_ids p ids r

unfoldable pub count_active_for_owner : String → Registry → ℕ
unfolding count_ids
count_active_for_owner owner r = count_ids counts (owned_ids owner r) r

unfoldable pub count_occupied_for_owner : String → Registry → ℕ
unfolding count_ids
count_occupied_for_owner owner r =
    count_ids (λ i. is_active i && is_monitor i.kind) (owned_ids owner r) r

-- The better of the best so far and the next candidate.
abbrev pub choose :
    (SubsessionInfo → Bool)
    → (SubsessionInfo → SubsessionInfo → Bool)
    → Option SubsessionInfo
    → Option SubsessionInfo
    → Option SubsessionInfo
choose cand beats none best = best
choose cand beats (some i) none = if cand i then some i else none
choose cand beats (some i) (some b) = if cand i && beats i b then some i else some b

-- The loops that keep the best record: `cand` is the test that the `continue`s leave, and `beats`
-- the comparison with the best so far.
unfoldable pub select :
    (SubsessionInfo → Bool)
    → (SubsessionInfo → SubsessionInfo → Bool)
    → Option SubsessionInfo
    → List String
    → Registry
    → Option SubsessionInfo
select cand beats best [] r = best
select cand beats best (id ∷ ids) r =
    select cand beats (choose cand beats (get id r.subs) best) ids r

abbrev pub reusable : SubsessionInfo → Bool
reusable i = is_active i && is_monitor i.kind && is_paused i.status

abbrev pub older : SubsessionInfo → SubsessionInfo → Bool
older i b = ltb i.last_activity_at b.last_activity_at

abbrev id_of : Option SubsessionInfo → Option String
id_of none = none
id_of (some i) = some i.id

unfoldable pub find_paused_for_reuse : String → Registry → Option String
unfolding select
find_paused_for_reuse owner r = id_of (select reusable older none (owned_ids owner r) r)

-- 2 = sleeping, 1 = paused; no other status is reclaimable.
abbrev pub score : SubsessionStatus → ℕ
score SubsessionStatus.sleeping = 2
score SubsessionStatus.paused = 1
score _ = 0

-- `last_activity_at > now - stale_seconds` is written as a sum, since the difference may be negative.
abbrev pub reclaimable : ℕ → ℕ → SubsessionInfo → Bool
reclaimable now stale_seconds i =
    is_active i && not (ltb now (i.last_activity_at + stale_seconds)) && ltb 0 (score i.status)

abbrev pub preferred : SubsessionInfo → SubsessionInfo → Bool
preferred i b =
    ltb (score b.status) (score i.status) || (score i.status == score b.status) && older i b

-- The ids that the nested loop visits.
abbrev pub ids_of_others : String → Dict (List String) → List String
ids_of_others exclude [] = []
ids_of_others exclude ((owner, ids) ∷ rest) =
    if str_eq owner exclude then ids_of_others exclude rest else ids ++ ids_of_others exclude rest

unfoldable pub find_stale_for_reclaim : String → ℕ → Registry → Option SubsessionInfo
unfolding select
find_stale_for_reclaim exclude stale_seconds r =
    select (reclaimable r.now stale_seconds) preferred none (ids_of_others exclude r.by_owner) r
