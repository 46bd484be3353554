-- ===== src/Tests/Owners.antt =====
-- The operations on all the records of an owner, at a concrete registry.
use robotsix_chat.Base.{
  String, true, false, some, [], ◌≡◌, refl, subst, str_eq, arith, elem, eq_iff, Bool-cases, inl,
  inr,
}
use robotsix_chat.Base.Dict.{get, get_or}
use robotsix_chat.Subsessions.Model.{SubsessionInfo}
use robotsix_chat.Subsessions.Registry.Closing.Once.{Halted}
use robotsix_chat.Subsessions.Registry.Ownership.{close_all_for_owner, reassign_owner}
use robotsix_chat.Subsessions.Registry.Ownership.Closed.{owner_closed}
use robotsix_chat.Subsessions.Registry.Ownership.Moved.{OwnersIndexed, Kept, owner_reassigned}
use robotsix_chat.Tests.Sample.{monitor, dependent, ended, busy, busy-KeysMatch}

owner_closed_example : Halted "b" (close_all_for_owner [] "s1" "session_closed" busy).0
unfolding get
owner_closed_example =
    owner_closed [] (λ id. record {}) "session_closed" "s1" "b" busy busy-KeysMatch refl

listed :
    (id : String) (j i : SubsessionInfo)
    → j ≡ i
    → elem id (get_or j.owner_session_id [] busy.by_owner) ≡ true
    → elem id (get_or i.owner_session_id [] busy.by_owner) ≡ true
listed id j i p = subst (λ x. elem id (get_or x.owner_session_id [] busy.by_owner) ≡ true) p

busy-OwnersIndexed : OwnersIndexed busy
unfolding get
busy-OwnersIndexed id i e = elim (Bool-cases (str_eq "a" id)) [
  | inl q ↦
      listed id monitor i (ground (arith, e, q)) (ground (arith, q, eq_iff "a" id, eq_iff id "a"))
  | inr q ↦ elim (Bool-cases (str_eq "b" id)) [
    | inl p ↦
        listed id dependent i (ground (arith, e, q, p))
          (ground (arith, p, eq_iff "b" id, eq_iff id "b"))
    | inr p ↦ elim (Bool-cases (str_eq "c" id)) [
      | inl o ↦
          listed id ended i (ground (arith, e, q, p, o))
            (ground (arith, o, eq_iff "c" id, eq_iff id "c"))
      | inr o ↦ absurd (ground (arith, e, q, p, o))
    ]
  ]
]

owner_reassigned_example :
    let r' = (reassign_owner "s1" "s2" busy).0 in
    OwnersIndexed r'
    × ((id : String) (i : SubsessionInfo) → get id busy.subs ≡ some i → Kept id i r')
    × ((id : String) (i : SubsessionInfo)
        → get id r'.subs ≡ some i
        → str_eq "s1" i.owner_session_id ≡ false)
owner_reassigned_example = owner_reassigned "s1" "s2" busy refl busy-OwnersIndexed
