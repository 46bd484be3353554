-- ===== src/Tests/Spawns.antt =====
-- The spawn, the drain of a queue and the anchored schedule, at concrete states.
use robotsix_chat.Base.{
  ℕ, ◌≤◌, ◌<◌, ◌+◌, ◌*◌, ◌/◌, ◌++◌, String, true, false, none, some, [], ◌∷◌, ◌≡◌, ◌⊎◌, refl, arith,
  str_eq, if◌then◌else◌,
}
use robotsix_chat.Base.Dict.{get, values, count_values}
use robotsix_chat.Chat.Titles.{split_words, is_space}
use robotsix_chat.Subsessions.Model.{SubsessionInfo, pos, active_status}
use robotsix_chat.Subsessions.Registry.State.{Registry}
use robotsix_chat.Subsessions.Registry.Create.{
  created, create, attach_task, find_active_periodic_by_ticket_id,
}
use robotsix_chat.Subsessions.Registry.Tickets.{is_dedup_key_active}
use robotsix_chat.Subsessions.Registry.Index.{
  count_active, count_occupied_for_owner, find_paused_for_reuse,
}
use robotsix_chat.Subsessions.SlotBudget.{SlotBudget, enabled, enqueue}
use robotsix_chat.Subsessions.SlotBudget.Fifo.{waiting}
use robotsix_chat.Subsessions.Schedule.{
  ParsedAnchor, Zones, fires, next_anchored_run_at, parse_anchor_time, is_whole_day,
  seconds_per_day, split_fields,
}
use robotsix_chat.Subsessions.Schedule.Anchored.{InPhase, IsNextDay, next_anchored_lem}
use robotsix_chat.Subsessions.Spawn.{
  SpawnRequest, SpawnEnv, Outside, go, parent_of, queued_request, spawned,
}
use robotsix_chat.Subsessions.Spawn.Start.{prepare, create_args, spawn_subsession}
use robotsix_chat.Subsessions.Spawn.Admitted.{IsAllowed, spawn_admitted}
use robotsix_chat.Subsessions.Spawn.Unanchored.{queued_unanchored}
use robotsix_chat.Subsessions.Wiring.{drain_slot_budget_queue}
use robotsix_chat.Subsessions.Wiring.Drained.{Drained, drain_ends}
use robotsix_chat.Tests.Sample.{busy, empty_registry, request}

-- Coordinated time, with whole days since the epoch.
abbrev pub zones : Zones
zones = record {
  int_of =
      λ s. if str_eq s "09" then some (pos 9) else if str_eq s "30" then some (pos 30) else none;
  is_zone = λ tz. str_eq tz "UTC";
  day_of = λ tz now. now / 86400;
  instant = λ p day. day * 86400 + (p.hour * 3600 + (p.minute * 60 + p.second));
}

abbrev half_past : ParsedAnchor
half_past = record { hour = 9; minute = 30; second = 0; tz = "UTC" }

parsed : parse_anchor_time zones "UTC" "09:30" ≡ some half_past
unfolding parse_anchor_time split_words is_space split_fields
parsed = refl

later_days : (day : ℕ) → 100000 / 86400 < day → 100000 < zones.instant half_past day
later_days day h = omega (arith, h)

next_anchored_example :
    (t : ℕ) × (next_anchored_run_at zones "UTC" 100000 86400 "09:30" ≡ fires t)
    × (100000 < t)
    × (((is_whole_day 86400 ≡ true)
          × (day : ℕ) × (t ≡ zones.instant half_past day)
          × IsNextDay zones half_past 100000 (86400 / seconds_per_day) (100000 / 86400) day)
        ⊎ ((is_whole_day 86400 ≡ false)
            × (t ≤ 100000 + 86400)
            × InPhase 86400 (zones.instant half_past (100000 / 86400)) t))
next_anchored_example =
    next_anchored_lem zones "UTC" "09:30" 100000 86400 half_past parsed (omega arith) later_days

abbrev outside : Outside
outside = record {
  settings = record {
    max_concurrent_per_session = 0;
    max_concurrent = 5;
    stale_reclaim_seconds = 0;
    max_depth = 3;
    monitor_max_model_level = 2;
    min_interval_seconds = 30;
    max_run_timeout_seconds = 3600;
  };
  callbacks = [];
  queues_after = λ i r b. b;
  valid_levels = 1 ∷ 2 ∷ 3 ∷ [];
  zones = zones;
  ancestor_context = λ r p prompt. prompt;
}

abbrev asked : SpawnRequest
asked = record { args = request; auto_stop_no_change_runs = none; inherit_context = false }

abbrev calm : SpawnEnv
calm = record { registry = busy; slot_budget = none }

spawn_admitted_example :
    let e' = (spawn_subsession outside "n" asked calm).0 in
    (m : SpawnEnv) × (r : Registry) × (i : SubsessionInfo) × (prepare outside asked calm ≡ go m)
    × (count_active m.registry < 5)
    × (create "n" (create_args outside asked m) m.registry ≡ (r, created i))
    × (i.id ≡ "n")
    × (e'.registry ≡ attach_task i.id (record { done = false; cancelled = false }) r)
    × IsAllowed outside (parent_of asked m) i
unfolding spawn_subsession is_dedup_key_active get find_active_periodic_by_ticket_id values
    active_status count_active count_values create
spawn_admitted_example =
    spawn_admitted outside "n" "n" asked calm (spawn_subsession outside "n" asked calm).0 refl refl

-- The conversation s1 has its one slot taken, and asks for an anchored monitor.
abbrev anchored : SpawnRequest
anchored = record asked {
  args = record request { owner_session_id = "s1"; anchor_time = some "09:30" };
}

abbrev one_slot : SlotBudget SpawnRequest
one_slot = record { budget = 1; queue_max = 4; queues = [] }

abbrev full : SpawnEnv
full = record { registry = busy; slot_budget = some one_slot }

queued_unanchored_example :
    let e' = (spawn_subsession outside "n" anchored full).0 in
    (b b' : SlotBudget SpawnRequest) × (some one_slot ≡ some b)
    × (e'.slot_budget ≡ some b')
    × (b.budget ≤ count_occupied_for_owner "s1" e'.registry)
    × (find_paused_for_reuse "s1" e'.registry ≡ none)
    × (e'.registry.subs ≡ busy.subs)
    × ((other : String)
        → waiting other b' ≡ (
            if str_eq "s1" other
            then waiting "s1" b ++ queued_request outside.settings anchored ∷ []
            else waiting other b))
    × ((later id : String) (f f' : SpawnEnv)
        → spawn_subsession outside later (queued_request outside.settings anchored) f
          ≡ (f', spawned id)
        → (m : SpawnEnv) × (r : Registry) × (i : SubsessionInfo) × (create later
              (create_args outside (queued_request outside.settings anchored) m)
              m.registry
            ≡ (r, created i))
          × (i.id ≡ id)
          × (i.anchor_time ≡ none))
unfolding spawn_subsession is_dedup_key_active get find_active_periodic_by_ticket_id values
    active_status enabled count_occupied_for_owner find_paused_for_reuse enqueue
queued_unanchored_example =
    queued_unanchored outside "n" anchored full (spawn_subsession outside "n" anchored full).0 refl

-- A request waits, and nothing runs.
abbrev freed : SpawnEnv
freed = record {
  registry = empty_registry;
  slot_budget = some (record one_slot { queues = ("s1", anchored ∷ []) ∷ [] });
}

drain_ends_example :
    (e' : SpawnEnv) × (drain_slot_budget_queue outside (λ n. "n") "s1" freed ≡ some e')
    × Drained outside "s1" e'
drain_ends_example = drain_ends outside "s1" (λ i r b. omega arith) (λ n. "n") freed
