-- ===== src/Subsessions/Registry/Tree/Exact.antt =====
-- `list_descendants` finds exactly the records below the root.
use robotsix_chat.Base.{
  ℕ, zero, suc, ◌≤◌, ◌<◌, String, true, false, some, List, [], ◌∷◌, ◌≡◌, refl, ap, sym, subst,
  arith, length, elem, str_eq, eq_iff, eq_refl, inl, inr, Bool-cases,
}
use robotsix_chat.Base.Dict.{get}
use robotsix_chat.Subsessions.Model.{SubsessionInfo}
use robotsix_chat.Subsessions.Registry.State.{Registry}
use robotsix_chat.Subsessions.Registry.Tree.{
  Search, is_new, pass, walk, list_for_owner, list_descendants,
}
use robotsix_chat.Subsessions.Registry.Tree.Walk.{
  In, Below, Below.root_itself, Below.child, ids, missing, IsSearch, pass-IsSearch, pass-Progress,
  pass-closed,
}

-- A search that no record of the tree can extend.
abbrev Closed : List SubsessionInfo → Search → Type 0
Closed tree s = (i : SubsessionInfo) → In i tree → is_new i s.frontier ≡ false

missing-le :
    (tree : List SubsessionInfo) (frontier : List String) → missing tree frontier ≤ length tree
missing-le [] frontier = omega arith
missing-le (i ∷ tree) frontier = ground (arith, missing-le tree frontier)

module _ (tree : List SubsessionInfo) (root : String) where
  walk-ends :
      (fuel : ℕ) (s : Search)
      → missing tree s.frontier < fuel
      → IsSearch tree root s
      → (s' : Search) × (walk fuel tree s ≡ some s') × IsSearch tree root s' × Closed tree s'
  unfolding walk
  walk-ends zero s q h = absurd (omega (arith, q))
  walk-ends (suc fuel) s q h =
      let s1 : Search = record s { changed = false } in
      let h1 : IsSearch tree root s1 = record {
        in_order = h.in_order;
        sound = h.sound;
        not_root = h.not_root;
      } in
      let p = pass-Progress tree tree s1 (λ i m. m) in
      let h2 = pass-IsSearch tree root tree s1 (λ i m. m) h1 in
      elim (Bool-cases (pass tree s1).changed) [
        | inr e ↦ (
          pass tree s1,
          rw e refl,
          h2,
          λ i m.
              subst (λ (t : Search). is_new i t.frontier ≡ false) (sym (p.same e))
                (pass-closed tree s1 e i m),
        )
        | inl e ↦
            let (s', ends, h', closed) =
              walk-ends fuel (pass tree s1) (omega (arith, q, p.lower refl e)) h2 in
            (s', rw e ends, h', closed)
      ]

  complete :
      (s : Search) (id : String)
      → IsSearch tree root s
      → Closed tree s
      → Below tree root id
      → elem id s.frontier ≡ true
  complete s id h closed root_itself =
      ground (arith, ap (λ l. elem root l) h.in_order, eq_refl root)
  complete s id h closed (child i parent m p b) =
      ground (arith, complete s parent h closed b, closed i m, p)

-- `list_descendants` finds a result, and the result names exactly the records of the root's owner
-- that lie below the root by the chain of their parents, the root excluded.
pub descendants_exact :
    (root_id : String) (r : Registry) (root : SubsessionInfo)
    → get root_id r.subs ≡ some root
    → (found : List SubsessionInfo) × (list_descendants root_id r ≡ some found)
      × ((id : String)
          → (elem id (ids found) ≡ true
              → Below (list_for_owner root.owner_session_id r) root_id id
                × (str_eq root_id id ≡ false))
            × (Below (list_for_owner root.owner_session_id r) root_id id
                → str_eq root_id id ≡ false
                → elem id (ids found) ≡ true))
unfolding list_descendants
descendants_exact root_id r root e =
    let tree = list_for_owner root.owner_session_id r in
    let (s, ends, h, closed) =
      walk-ends tree root_id (suc (length tree))
        (record { frontier = root_id ∷ []; descendants = []; changed = true })
        (omega (arith, missing-le tree (root_id ∷ [])))
        (record {
          in_order = refl;
          sound = λ id q.
              subst (λ k. Below tree root_id k) (ground (arith, q, eq_iff id root_id)) root_itself;
          not_root = refl;
        }) in
    (
      s.descendants,
      rw (e, list_descendants) (rw ends refl),
      λ id. (
        (λ q. (
          h.sound id (ground (arith, q, ap (λ l. elem id l) h.in_order)),
          ground (arith, q, h.not_root, eq_iff root_id id),
        )),
        (λ b d. ground (
          arith,
          complete tree root_id s id h closed b,
          ap (λ l. elem id l) h.in_order,
          d,
          eq_iff root_id id,
          eq_iff id root_id,
        )),
      ),
    )
