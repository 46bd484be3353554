-- ===== src/Subsessions/Registry/State.antt =====
-- The state of src/robotsix_chat/subsessions/registry.py, with `_publish` and `persist`.
-- `now` is the reading of the clock while an operation runs. `writable` says that a store path is
-- set and that the file system takes the write; `disk` is the content of the store's file.
use robotsix_chat.Base.{ℕ, String, Bool, Option, List, [], ◌∷◌, ◌++◌, map, if◌then◌else◌}
use robotsix_chat.Base.Dict.{Dict, get, put, values, get_or}
use robotsix_chat.Subsessions.Model.{SubsessionInfo, InboxMessage, Frame}

-- An asyncio task, as far as the registry looks: whether it is done, and whether it was cancelled.
pub record Task : Type 0 where
  pub done : Bool
  pub cancelled : Bool

pub record StoredEntry : Type 0 where
  pub info : SubsessionInfo
  pub inbox : List InboxMessage
  pub in_flight_inbox : List InboxMessage

pub record Registry : Type 0 where
  pub now : ℕ
  pub writable : Bool
  pub has_sink : Bool
  pub transcript_max_entries : ℕ
  pub subs : Dict SubsessionInfo
  pub tasks : Dict Task
  pub inboxes : Dict (List InboxMessage)
  pub in_flight : Dict (List InboxMessage)
  pub wake_events : Dict Bool
  pub by_owner : Dict (List String)
  pub active_dedup_keys : Dict String
  pub event_waiters : Dict (List String)
  pub published : List (String × Frame)
  pub disk : List StoredEntry

abbrev pub get_info : String → Registry → Option SubsessionInfo
get_info sub_id r = get sub_id r.subs

-- A record is mutated in place.
abbrev pub put_info : SubsessionInfo → Registry → Registry
put_info info r = record r { subs = put info.id info r.subs }

unfoldable pub publish : String → Frame → Registry → Registry
publish owner frame r = record r {
  published = if r.has_sink then r.published ++ (owner, frame) ∷ [] else r.published;
}

abbrev pub stored_entry : Registry → SubsessionInfo → StoredEntry
stored_entry r info = record {
  info = info;
  inbox = get_or info.id [] r.inboxes;
  in_flight_inbox = get_or info.id [] r.in_flight;
}

-- What `persist` writes: a snapshot of every record with its undelivered messages.
unfoldable pub stored_entries : Registry → List StoredEntry
stored_entries r = map (stored_entry r) (values r.subs)

unfoldable pub persist : Registry → Registry
persist r = record r { disk = if r.writable then stored_entries r else r.disk }
