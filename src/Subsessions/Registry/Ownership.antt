-- ===== src/Subsessions/Registry/Ownership.antt =====
-- The operations of src/robotsix_chat/subsessions/registry_index.py that act on all the records of an
-- owner or on lost workers: `reap_orphans`, `close_all_for_owner`, `reassign_owner` and
-- `reassign_live_user_chats`. A Python set is walked in the order of its list.
pub mod Closed
pub mod Moved
use robotsix_chat.Base.{
  ℕ, suc, ◌+◌, String, Bool, true, false, not, ◌&&◌, Option, none, some, List, [], ◌∷◌, str_eq,
  elem, any_if, ◌==◌, is_empty, set_add, discard, bit, if◌then◌else◌, length,
}
use robotsix_chat.Base.Dict.{Dict, get, put, remove, values, get_or}
use robotsix_chat.Subsessions.Model.{
  SubsessionInfo, SubsessionStatus, Summary, is_active, is_user_chat, record_lost,
  subsession_started,
}
use robotsix_chat.Subsessions.Registry.State.{Registry, Task, publish, persist}
use robotsix_chat.Subsessions.Registry.Closing.{
  Callback, Closing, cancel_task, cancel_and_close, close_and_publish, depth_bound,
}

abbrev is_member : String → Dict (List String) → Bool
is_member sub_id owners = any_if (λ ids. elem sub_id ids) (values owners)

-- The ids of the live tasks that no owner's set holds.
unfoldable pub orphans_of : Dict Task → Dict (List String) → List String
orphans_of [] owners = []
orphans_of ((sub_id, t) ∷ tasks) owners =
    let rest = orphans_of tasks owners in
    if t.done then rest else if is_member sub_id owners then rest else sub_id ∷ rest

abbrev lost : Closing
lost = record {
  status = SubsessionStatus.failed;
  summary = record_lost;
  reason = "";
  closed_by = "agent";
  error = some "orphaned_timer_reaped";
}

abbrev fail_lost : List Callback → Option SubsessionInfo → Registry → Registry
fail_lost callbacks none r = r
fail_lost callbacks (some i) r = close_and_publish callbacks (depth_bound r) lost i r

unfoldable pub reap_each : List Callback → List String → Registry → Registry
reap_each callbacks [] r = r
reap_each callbacks (id ∷ ids) r =
    let r' = cancel_task id r in reap_each callbacks ids (fail_lost callbacks (get id r'.subs) r')

unfoldable pub reap_orphans : List Callback → Registry → Registry × ℕ
unfolding orphans_of reap_each
reap_orphans callbacks r =
    let orphaned_ids = orphans_of r.tasks r.by_owner in
    (reap_each callbacks orphaned_ids r, length orphaned_ids)

abbrev counted : Option SubsessionInfo → ℕ
counted none = 0
counted (some i) = 1

unfoldable pub close_each : List Callback → String → List String → Registry → Registry × ℕ
close_each callbacks reason [] r = (r, 0)
close_each callbacks reason (id ∷ ids) r =
    let (r', closed) = cancel_and_close callbacks id reason "system" none r in
    let (r'', n) = close_each callbacks reason ids r' in (r'', counted closed + n)

unfoldable pub close_all_for_owner : List Callback → String → String → Registry → Registry × ℕ
unfolding close_each
close_all_for_owner callbacks owner reason r =
    close_each callbacks reason (get_or owner [] r.by_owner) r

-- One record follows its conversation to the new owner.
abbrev pub moved : String → String → SubsessionInfo → Registry → Registry
moved new sub_id i r =
    let i' = record i { owner_session_id = new } in
    publish new (subsession_started i') (record r {
      subs = put sub_id i' r.subs;
      by_owner = put new (set_add sub_id (get_or new [] r.by_owner)) r.by_owner;
    })

unfoldable pub move_each : String → List String → Registry → Registry × ℕ
unfolding publish
move_each new [] r = (r, 0)
move_each new (id ∷ ids) r = elim (get id r.subs) [
  | none ↦ move_each new ids r
  | some i ↦ let (r', n) = move_each new ids (moved new id i r) in (r', suc n)
]

abbrev pub saved : Registry × ℕ → Registry × ℕ
saved (r, n) = (persist r, n)

unfoldable pub reassign_owner : String → String → Registry → Registry × ℕ
unfolding move_each persist
reassign_owner old new r = if str_eq old new then (r, 0) else elim (get old r.by_owner) [
  | none ↦ (r, 0)
  | some ids ↦
      let popped = record r { by_owner = remove old r.by_owner } in
      if is_empty ids then (popped, 0) else saved (move_each new ids popped)
]

-- `old`'s set loses the id that moves.
abbrev leave : String → String → Registry → Registry
leave old sub_id r = record r {
  by_owner = put old (discard sub_id (get_or old [] r.by_owner)) r.by_owner;
}

abbrev is_live_chat : SubsessionInfo → Bool
is_live_chat i = is_user_chat i.kind && is_active i

unfoldable pub move_chats : String → String → List String → Registry → Registry × ℕ
unfolding publish
move_chats old new [] r = (r, 0)
move_chats old new (id ∷ ids) r = elim (get id r.subs) [
  | none ↦ move_chats old new ids r
  | some i ↦
      let skip = move_chats old new ids r in
      let (r', n) = move_chats old new ids (moved new id i (leave old id r)) in
      if is_live_chat i then (r', suc n) else skip
]

-- An empty set is dropped, and the file is written if a record moved.
abbrev tidy : String → Registry × ℕ → Registry × ℕ
tidy old (r, n) =
    let tidied = record r {
      by_owner = if is_empty (get_or old [] r.by_owner) then remove old r.by_owner else r.by_owner;
    } in
    (if n == 0 then tidied else persist tidied, n)

unfoldable pub reassign_live_user_chats : String → String → Registry → Registry × ℕ
unfolding move_chats persist
reassign_live_user_chats old new r = if str_eq old new then (r, 0) else elim (get old r.by_owner) [
  | none ↦ (r, 0)
  | some ids ↦ if is_empty ids then (r, 0) else tidy old (move_chats old new ids r)
]
