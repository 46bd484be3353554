-- ===== src/Tests/Closings.antt =====
-- The terminal transitions, the searches for a slot and the tree, at concrete registries.
use robotsix_chat.Base.{
  ◌+◌, String, true, false, none, some, List, [], ◌≡◌, refl, ◌⊎◌, elem, str_eq,
}
use robotsix_chat.Base.Dict.{get, put, remove, keys, values, count_values}
use robotsix_chat.Subsessions.Model.{
  SubsessionInfo, SubsessionStatus, text, is_active, active_status,
}
use robotsix_chat.Subsessions.Checkpoint.{checkpoint_ticket_id}
use robotsix_chat.Subsessions.Registry.State.{persist, publish}
use robotsix_chat.Subsessions.Registry.Closing.{
  Closing, closed_info, close_and_publish, depth_bound, blocking_ticket,
}
use robotsix_chat.Subsessions.Registry.Closing.Once.{EndCall, end_with, end_once}
use robotsix_chat.Subsessions.Registry.Closing.Dependents.{Unblocked, dependents_paused}
use robotsix_chat.Subsessions.Registry.Closing.Depth.{depth_enough}
use robotsix_chat.Subsessions.Registry.Index.{
  reusable, older, owned_ids, find_paused_for_reuse, reclaimable, preferred, ids_of_others,
  find_stale_for_reclaim,
}
use robotsix_chat.Subsessions.Registry.Index.Choice.{
  NoCandidate, IsBest, find_paused_for_reuse_lem, find_stale_for_reclaim_lem,
}
use robotsix_chat.Subsessions.Registry.Tree.{list_for_owner, list_descendants}
use robotsix_chat.Subsessions.Registry.Tree.Walk.{Below, ids}
use robotsix_chat.Subsessions.Registry.Tree.Exact.{descendants_exact}
use robotsix_chat.Tests.Sample.{monitor, busy, busy-KeysMatch}

abbrev paused_out : Closing
paused_out = record {
  status = SubsessionStatus.closed;
  summary = text "stopped";
  reason = "max_runs";
  closed_by = "agent";
  error = none;
}

-- Closing the monitor with a reason that leaves its ticket open closes the dependent as well.
both_closed :
    count_values is_active (close_and_publish [] (depth_bound busy) paused_out monitor busy).subs
    ≡ 0
unfolding close_and_publish count_values active_status get put remove keys values persist publish
    checkpoint_ticket_id blocking_ticket closed_info
both_closed = refl

end_once_example :
    let r' = (end_with [] (EndCall.closes (text "done") "completed" "agent") "a" busy).0 in
    end_with [] (EndCall.fails "late") "a" r' ≡ (r', none)
end_once_example =
    end_once [] "a" (record {}) (EndCall.closes (text "done") "completed" "agent")
      (EndCall.fails "late") busy busy-KeysMatch

dependents_paused_example :
    Unblocked
      (closed_info busy.now paused_out monitor)
      "T-1"
      "b"
      (close_and_publish [] 3 paused_out monitor busy)
unfolding blocking_ticket closed_info checkpoint_ticket_id get
dependents_paused_example =
    dependents_paused [] (record {}) 2 paused_out monitor busy "T-1" "b" busy-KeysMatch refl

depth_enough_example :
    close_and_publish [] (depth_bound busy) paused_out monitor busy
    ≡ close_and_publish [] (4 + depth_bound busy) paused_out monitor busy
unfolding active_status get
depth_enough_example =
    depth_enough [] (record {}) 4 paused_out monitor busy refl busy-KeysMatch refl refl

find_paused_for_reuse_example :
    ((find_paused_for_reuse "s1" busy ≡ none) × NoCandidate reusable (owned_ids "s1" busy) busy)
    ⊎ ((b : SubsessionInfo) × (find_paused_for_reuse "s1" busy ≡ some b.id)
        × IsBest reusable older (owned_ids "s1" busy) busy b)
find_paused_for_reuse_example = find_paused_for_reuse_lem "s1" busy

find_stale_for_reclaim_example :
    ((find_stale_for_reclaim "s2" 1 busy ≡ none)
      × NoCandidate (reclaimable busy.now 1) (ids_of_others "s2" busy.by_owner) busy)
    ⊎ ((b : SubsessionInfo) × (find_stale_for_reclaim "s2" 1 busy ≡ some b)
        × IsBest (reclaimable busy.now 1) preferred (ids_of_others "s2" busy.by_owner) busy b)
find_stale_for_reclaim_example = find_stale_for_reclaim_lem "s2" 1 busy

descendants_exact_example :
    (found : List SubsessionInfo) × (list_descendants "a" busy ≡ some found)
    × ((id : String)
        → (elem id (ids found) ≡ true
            → Below (list_for_owner "s1" busy) "a" id × (str_eq "a" id ≡ false))
          × (Below (list_for_owner "s1" busy) "a" id
              → str_eq "a" id ≡ false
              → elem id (ids found) ≡ true))
unfolding get
descendants_exact_example = descendants_exact "a" busy monitor refl
