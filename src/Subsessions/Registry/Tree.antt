-- ===== src/Subsessions/Registry/Tree.antt =====
-- `list_for_owner` and `list_descendants` of src/robotsix_chat/subsessions/registry_index.py.
pub mod Walk
pub mod Exact
use robotsix_chat.Base.{
  ℕ, zero, suc, String, Bool, true, false, not, ◌&&◌, Option, none, some, List, [], ◌∷◌, ◌++◌,
  length, elem, if◌then◌else◌,
}
use robotsix_chat.Base.Dict.{get, get_or}
use robotsix_chat.Subsessions.Model.{SubsessionInfo, opt_in}
use robotsix_chat.Subsessions.Registry.State.{Registry}
use robotsix_chat.Subsessions.Registry.Retention.{sort_by}

abbrev add_found : Option SubsessionInfo → List SubsessionInfo → List SubsessionInfo
add_found none infos = infos
add_found (some i) infos = i ∷ infos

unfoldable pub records_of : List String → Registry → List SubsessionInfo
records_of [] r = []
records_of (id ∷ ids) r = add_found (get id r.subs) (records_of ids r)

unfoldable pub list_for_owner : String → Registry → List SubsessionInfo
unfolding records_of sort_by
list_for_owner owner r = sort_by (λ i. i.created_at) (records_of (get_or owner [] r.by_owner) r)

-- The local variables of the search.
pub record Search : Type 0 where
  pub frontier : List String
  pub descendants : List SubsessionInfo
  pub changed : Bool

abbrev pub is_new : SubsessionInfo → List String → Bool
is_new i frontier = opt_in i.parent_id frontier && not (elem i.id frontier)

unfoldable pub visit : SubsessionInfo → Search → Search
visit i s =
    if is_new i s.frontier
    then record {
      frontier = s.frontier ++ i.id ∷ [];
      descendants = s.descendants ++ i ∷ [];
      changed = true;
    }
    else s

-- The `for` loop over the tree.
unfoldable pub pass : List SubsessionInfo → Search → Search
unfolding visit
pass [] s = s
pass (i ∷ tree) s = pass tree (visit i s)

-- The `while changed` loop; `none` means that the fuel ran out.
unfoldable pub walk : ℕ → List SubsessionInfo → Search → Option Search
unfolding pass
walk zero tree s = none
walk (suc fuel) tree s =
    let s' = pass tree (record s { changed = false }) in
    let again = walk fuel tree s' in if s'.changed then again else some s'

abbrev found_by : Option Search → Option (List SubsessionInfo)
found_by none = none
found_by (some s) = some s.descendants

-- A pass that changes something finds a record of the tree, so there are at most as many such passes
-- as records.
unfoldable pub list_descendants : String → Registry → Option (List SubsessionInfo)
unfolding walk list_for_owner
list_descendants root_id r = elim (get root_id r.subs) [
  | none ↦ some []
  | some root ↦
      let tree = list_for_owner root.owner_session_id r in
      found_by (
        walk (suc (length tree)) tree
          (record { frontier = root_id ∷ []; descendants = []; changed = true }))
]
