-- ===== src/Subsessions/Registry/Retention.antt =====
-- `RegistryStore.prune_terminal` of src/robotsix_chat/subsessions/registry_store.py.
pub mod Records
pub mod Bounded
use robotsix_chat.Base.{
  ℕ, suc, zero, ◌-◌, String, Bool, not, Option, none, some, List, [], ◌∷◌, length, keep_if, leb,
  is_empty, discard, if◌then◌else◌,
}
use robotsix_chat.Base.Dict.{get, put, remove, values}
use robotsix_chat.Subsessions.Model.{SubsessionInfo, is_active}
use robotsix_chat.Subsessions.Registry.State.{Registry}

abbrev pub max_terminal_entries : ℕ
max_terminal_entries = 50

-- Python's stable `sorted`, by a numeric key.
pub insert_by : (SubsessionInfo → ℕ) → SubsessionInfo → List SubsessionInfo → List SubsessionInfo
insert_by key x [] = x ∷ []
insert_by key x (y ∷ ys) = if leb (key x) (key y) then x ∷ y ∷ ys else y ∷ insert_by key x ys

unfoldable pub sort_by : (SubsessionInfo → ℕ) → List SubsessionInfo → List SubsessionInfo
unfolding insert_by
sort_by key [] = []
sort_by key (x ∷ xs) = insert_by key x (sort_by key xs)

abbrev pub take : ℕ → List SubsessionInfo → List SubsessionInfo
take zero xs = []
take (suc n) [] = []
take (suc n) (x ∷ xs) = x ∷ take n xs

abbrev drop_member : String → String → Registry → Registry
drop_member owner sub_id r = elim (get owner r.by_owner) [
  | none ↦ r
  | some ids ↦
      let rest = discard sub_id ids in
      record r {
        by_owner = if is_empty rest then remove owner r.by_owner else put owner rest r.by_owner;
      }
]

unfoldable pub drop_record : SubsessionInfo → Registry → Registry
drop_record info r = drop_member info.owner_session_id info.id (record r {
  subs = remove info.id r.subs;
  inboxes = remove info.id r.inboxes;
  in_flight = remove info.id r.in_flight;
  wake_events = remove info.id r.wake_events;
})

unfoldable pub drop_each : List SubsessionInfo → Registry → Registry
drop_each [] r = r
drop_each (info ∷ rest) r = drop_each rest (drop_record info r)

-- The terminal records, least recently active first.
unfoldable pub terminal_records : Registry → List SubsessionInfo
unfolding sort_by
terminal_records r =
    sort_by (λ i. i.last_activity_at) (keep_if (λ i. not (is_active i)) (values r.subs))

unfoldable pub prune_terminal : Registry → Registry
unfolding drop_each
prune_terminal r =
    let terminal = terminal_records r in
    drop_each (take (length terminal - max_terminal_entries) terminal) r
