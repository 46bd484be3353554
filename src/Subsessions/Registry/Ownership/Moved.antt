-- ===== src/Subsessions/Registry/Ownership/Moved.antt =====
-- `reassign_owner` moves every record of the old owner, and the index of the owners stays right.
use robotsix_chat.Base.{
  String, true, false, ◌&&◌, ◌||◌, none, some, List, [], ◌∷◌, ◌≡◌, refl, ap, ◌∙◌, arith, str_eq,
  eq_iff, elem, elem-set_add, set_add, is_empty, Bool-cases, inl, inr, Option-cases, if◌then◌else◌,
}
use robotsix_chat.Base.Dict.{get, remove, get_or}
use robotsix_chat.Base.Dict.Laws.{get-put, get_or-put, get_or-remove}
use robotsix_chat.Subsessions.Model.{SubsessionInfo}
use robotsix_chat.Subsessions.Registry.State.{Registry, publish, persist}
use robotsix_chat.Subsessions.Registry.Ownership.{saved, move_each, moved, reassign_owner}

-- Every record is listed under its owner.
abbrev pub OwnersIndexed : Registry → Type 0
OwnersIndexed r =
    (id : String) (i : SubsessionInfo)
    → get id r.subs ≡ some i
    → elem id (get_or i.owner_session_id [] r.by_owner) ≡ true

module _ (old new : String) (different : str_eq old new ≡ false) where
  -- While the loop runs, a record is listed under its owner or is still to be moved.
  abbrev Pending : List String → Registry → Type 0
  Pending ids r =
      (id : String) (i : SubsessionInfo)
      → get id r.subs ≡ some i
      → (elem id (get_or i.owner_session_id [] r.by_owner)
          || str_eq old i.owner_session_id && elem id ids)
        ≡ true

  Pending-moved :
      (sub_id : String) (ids : List String) (i : SubsessionInfo) (r : Registry)
      → get sub_id r.subs ≡ some i
      → Pending (sub_id ∷ ids) r
      → Pending ids (moved new sub_id i r)
  unfolding publish
  Pending-moved sub_id ids i r e p id j f = ground (
    arith,
    f,
    e,
    different,
    p id j,
    get-put id sub_id (record i { owner_session_id = new }) r.subs,
    get_or-put j.owner_session_id new [] (set_add sub_id (get_or new [] r.by_owner)) r.by_owner,
    elem-set_add id sub_id (get_or new [] r.by_owner),
    eq_iff sub_id id,
    eq_iff id sub_id,
    eq_iff new j.owner_session_id,
    eq_iff old j.owner_session_id,
  )

  Pending-unknown :
      (sub_id : String) (ids : List String) (r : Registry)
      → get sub_id r.subs ≡ none
      → Pending (sub_id ∷ ids) r
      → Pending ids r
  Pending-unknown sub_id ids r e p id i f =
      ground (arith, e, f, p id i f, eq_iff sub_id id, eq_iff id sub_id)

  -- Nothing is listed under the old owner.
  abbrev Vacated : Registry → Type 0
  Vacated r = get_or old [] r.by_owner ≡ []

  Vacated-moved :
      (sub_id : String) (i : SubsessionInfo) (r : Registry)
      → Vacated r
      → Vacated (moved new sub_id i r)
  unfolding publish
  Vacated-moved sub_id i r v = ground (
    arith,
    v,
    different,
    get_or-put old new [] (set_add sub_id (get_or new [] r.by_owner)) r.by_owner,
    eq_iff old new,
    eq_iff new old,
  )

  move_each-ends :
      (ids : List String) (r : Registry)
      → Vacated r
      → Pending ids r
      → Vacated (move_each new ids r).0 × Pending [] (move_each new ids r).0
  unfolding move_each
  move_each-ends [] r v p = (v, p)
  move_each-ends (id ∷ ids) r v p = elim (Option-cases (get id r.subs)) [
    | inl e ↦ rw (e, move_each) (move_each-ends ids r v (Pending-unknown id ids r e p))
    | inr (i, e) ↦
        rw (e, move_each)
          (move_each-ends ids (moved new id i r) (Vacated-moved id i r v)
            (Pending-moved id ids i r e p))
  ]

  Pending-pop :
      (ids : List String) (r : Registry)
      → get old r.by_owner ≡ some ids
      → OwnersIndexed r
      → Pending ids (record r { by_owner = remove old r.by_owner })
  Pending-pop ids r e h id i f = ground (
    arith,
    e,
    f,
    h id i f,
    get_or-remove i.owner_session_id old [] r.by_owner,
    eq_iff old i.owner_session_id,
  )

  NoneLeft-Vacated :
      (r : Registry) (id : String) (i : SubsessionInfo)
      → Vacated r
      → OwnersIndexed r
      → get id r.subs ≡ some i
      → str_eq old i.owner_session_id ≡ false
  NoneLeft-Vacated r id i v h f = ground (arith, v, h id i f, eq_iff old i.owner_session_id)

  OwnersIndexed-Pending : (r : Registry) → Pending [] r → OwnersIndexed r
  OwnersIndexed-Pending r p id i f = ground (arith, p id i f)

  reassign_owner-ends :
      (r : Registry)
      → OwnersIndexed r
      → Vacated (reassign_owner old new r).0 × OwnersIndexed (reassign_owner old new r).0
  unfolding reassign_owner persist
  reassign_owner-ends r h = elim (Option-cases (get old r.by_owner)) [
    | inl e ↦ rw different (rw (e, reassign_owner) (ground (arith, e), h))
    | inr (ids, e) ↦ go ids e
  ]
    where
      popped : Registry
      popped = record r { by_owner = remove old r.by_owner }

      vacated : Vacated popped
      vacated = ground (arith, get_or-remove old old [] r.by_owner, eq_iff old old)

      go :
          (ids : List String)
          → get old r.by_owner ≡ some ids
          → Vacated (reassign_owner old new r).0 × OwnersIndexed (reassign_owner old new r).0
      go [] e =
          rw different
            (rw (e, reassign_owner) (vacated, OwnersIndexed-Pending popped (Pending-pop [] r e h)))
      go (x ∷ ids) e =
          let (v, p) = move_each-ends (x ∷ ids) popped vacated (Pending-pop (x ∷ ids) r e h) in
          rw different
            (rw (e, reassign_owner) (v, OwnersIndexed-Pending (move_each new (x ∷ ids) popped).0 p))

-- A record is there, at most its owner changed.
abbrev pub Kept : String → SubsessionInfo → Registry → Type 0
Kept id i r =
    (j : SubsessionInfo) × (get id r.subs ≡ some j)
    × (record i { owner_session_id = j.owner_session_id } ≡ j)

Kept-moved :
    (new id sub_id : String) (k i : SubsessionInfo) (r : Registry)
    → get sub_id r.subs ≡ some k
    → Kept id i r
    → Kept id i (moved new sub_id k r)
unfolding publish
Kept-moved new id sub_id k i r e (j, f, g) = elim (Bool-cases (str_eq sub_id id)) [
  | inl q ↦ (
    record k { owner_session_id = new },
    rw (get-put id sub_id (record k { owner_session_id = new }) r.subs) (rw q refl),
    ap (λ (x : SubsessionInfo). record x { owner_session_id = new }) (g ∙ same q),
  )
  | inr q ↦ (j, rw (get-put id sub_id (record k { owner_session_id = new }) r.subs) (rw q f), g)
]
  where
    same : str_eq sub_id id ≡ true → j ≡ k
    same q = let p : sub_id ≡ id = ground (arith, q, eq_iff sub_id id) in cc (e, f, p)

Kept-move_each :
    (new id : String) (i : SubsessionInfo) (ids : List String) (r : Registry)
    → Kept id i r
    → Kept id i (move_each new ids r).0
unfolding move_each
Kept-move_each new id i [] r h = h
Kept-move_each new id i (x ∷ ids) r h = elim (Option-cases (get x r.subs)) [
  | inl e ↦ rw (e, move_each) (Kept-move_each new id i ids r h)
  | inr (k, e) ↦
      rw (e, move_each)
        (Kept-move_each new id i ids (moved new x k r) (Kept-moved new id x k i r e h))
]

Kept-reassign_owner :
    (old new id : String) (i : SubsessionInfo) (r : Registry)
    → Kept id i r
    → Kept id i (reassign_owner old new r).0
unfolding reassign_owner persist
Kept-reassign_owner old new id i r h = elim (Bool-cases (str_eq old new)) [
  | inl q ↦ rw q h
  | inr q ↦ elim (Option-cases (get old r.by_owner)) [
    | inl e ↦ rw q (rw (e, reassign_owner) h)
    | inr (ids, e) ↦ rw q (
        rw (e, reassign_owner)
          (elim ids
            as (λ l.
              Kept id i
                (if is_empty l
                  then (record r { by_owner = remove old r.by_owner }, 0)
                  else saved (move_each new l (record r { by_owner = remove old r.by_owner }))).0) [
                    | [] ↦ h
                    | x ∷ l ↦
                        Kept-move_each new id i (x ∷ l)
                          (record r { by_owner = remove old r.by_owner }) h
                  ]))
  ]
]

-- Where every record is listed under its owner and the two owners differ, `reassign_owner` keeps every
-- record, at most its owner changed, leaves none with the old owner, and lists every record under its
-- owner.
pub owner_reassigned :
    (old new : String) (r : Registry)
    → str_eq old new ≡ false
    → OwnersIndexed r
    → let r' = (reassign_owner old new r).0 in
      OwnersIndexed r'
      × ((id : String) (i : SubsessionInfo) → get id r.subs ≡ some i → Kept id i r')
      × ((id : String) (i : SubsessionInfo)
          → get id r'.subs ≡ some i
          → str_eq old i.owner_session_id ≡ false)
owner_reassigned old new r d h =
    let (v, h') = reassign_owner-ends old new d r h in
    (
      h',
      λ id i e. Kept-reassign_owner old new id i r (i, e, refl),
      λ id i e. NoneLeft-Vacated old new d (reassign_owner old new r).0 id i v h' e,
    )
