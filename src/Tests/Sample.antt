-- ===== src/Tests/Sample.antt =====
-- The records and registries that the tests use.
use robotsix_chat.Base.{true, false, none, some, [], ◌∷◌, refl}
use robotsix_chat.Base.Dict.{get}
use robotsix_chat.Subsessions.Model.{SubsessionInfo, SubsessionKind, SubsessionStatus, str}
use robotsix_chat.Subsessions.Registry.State.{Registry}
use robotsix_chat.Subsessions.Registry.Create.{Request}
use robotsix_chat.Subsessions.Registry.Closing.Rule.{KeysMatch}
use robotsix_chat.Subsessions.Registry.Retention.Records.{Keyed, own_id-Keyed}

-- A running monitor of the ticket T-1.
abbrev pub monitor : SubsessionInfo
monitor = record {
  id = "a";
  kind = SubsessionKind.periodic;
  owner_session_id = "s1";
  parent_id = none;
  depth = 1;
  title = "watch";
  prompt = "watch the ticket";
  model_level = 1;
  status = SubsessionStatus.running;
  created_at = 5;
  last_activity_at = 7;
  interval_seconds = some 60;
  anchor_time = none;
  next_run_at = none;
  include_previous_result = false;
  runs = 0;
  max_runs = none;
  last_result = none;
  completed_runs = [];
  event_timeout_seconds = none;
  run_timeout_seconds = none;
  summary = none;
  close_reason = none;
  error = none;
  transcript = [];
  turn_history = [];
  checkpoint = some (("ticket_id", str "T-1") ∷ []);
  consecutive_no_change = 0;
  consecutive_errored_runs = 0;
  dedup_key = some "T-1";
  depends_on_ticket_id = none;
  retry_count = 0;
}

-- A child of it that waits for the ticket.
abbrev pub dependent : SubsessionInfo
dependent = record monitor {
  id = "b";
  kind = SubsessionKind.wait_for_event;
  parent_id = some "a";
  created_at = 6;
  checkpoint = none;
  dedup_key = none;
  depends_on_ticket_id = some "T-1";
}

-- A record that has ended.
abbrev pub ended : SubsessionInfo
ended = record monitor {
  id = "c";
  status = SubsessionStatus.closed;
  close_reason = some "completed";
  checkpoint = none;
  dedup_key = none;
}

abbrev pub empty_registry : Registry
empty_registry = record {
  now = 10;
  writable = true;
  has_sink = true;
  transcript_max_entries = 3;
  subs = [];
  tasks = [];
  inboxes = [];
  in_flight = [];
  wake_events = [];
  by_owner = [];
  active_dedup_keys = [];
  event_waiters = [];
  published = [];
  disk = [];
}

abbrev pub busy : Registry
busy = record empty_registry {
  subs = ("a", monitor) ∷ ("b", dependent) ∷ ("c", ended) ∷ [];
  tasks = ("b", record { done = false; cancelled = false }) ∷ [];
  inboxes = ("a", []) ∷ ("b", []) ∷ [];
  wake_events = ("a", false) ∷ ("b", false) ∷ [];
  by_owner = ("s1", "a" ∷ "b" ∷ "c" ∷ []) ∷ [];
  active_dedup_keys = ("T-1", "a") ∷ [];
}

pub busy-Keyed : Keyed busy.subs
unfolding get
busy-Keyed = (refl, refl, (refl, refl, (refl, refl, record {})))

pub busy-KeysMatch : KeysMatch busy
busy-KeysMatch id i e = own_id-Keyed id i busy.subs busy-Keyed e

-- A request for one more monitor of a ticket.
abbrev pub request : Request
request = record {
  kind = SubsessionKind.periodic;
  owner_session_id = "s2";
  parent_id = none;
  depth = 0;
  title = "again";
  prompt = "watch it";
  model_level = 1;
  interval_seconds = some 60;
  anchor_time = none;
  include_previous_result = false;
  max_runs = none;
  sub_id = none;
  runs = 0;
  completed_runs = [];
  turn_history = [];
  checkpoint = none;
  dedup_key = some "T-2";
  depends_on_ticket_id = none;
  retry_count = 0;
  event_timeout_seconds = none;
  run_timeout_seconds = none;
  inbox = [];
}
