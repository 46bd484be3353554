-- ===== src/Subsessions/Registry/Lifecycle/Evolution.antt =====
-- What may happen to a record: its identity stays, it does not come back to life, and the runs it has
-- completed stay completed.
use robotsix_chat.Base.{
  ℕ, String, Bool, true, false, Option, some, ◌≡◌, refl, ap, ◌∙◌, sym, arith, str_eq, eq_iff,
  Bool-cases, inl, inr, any_if, ◌==◌, subst,
}
use robotsix_chat.Base.Dict.{Dict, get, put}
use robotsix_chat.Base.Dict.Laws.{get-put}
use robotsix_chat.Subsessions.Model.{SubsessionInfo, SubsessionKind, is_active, active_status}
use robotsix_chat.Subsessions.Registry.Closing.{Closing, closed_info}
use robotsix_chat.Subsessions.Registry.Closing.Rule.{IsTerminal, status-closed_info}

abbrev pub has_run : ℕ → SubsessionInfo → Bool
has_run n i = any_if (λ m. m == n) i.completed_runs

-- The fields that no operation on a registered record assigns, but for a change of its owner.
abbrev pub identity :
    SubsessionInfo
    → String × SubsessionKind × String × Option String × ℕ × ℕ × Option String × Option String
identity i = (
  i.id, i.kind, i.owner_session_id, i.parent_id, i.depth, i.created_at, i.dedup_key,
  i.depends_on_ticket_id,
)

pub record Change (i j : SubsessionInfo) : Type 0 where
  pub same : identity i ≡ identity j
  pub ended : is_active i ≡ false → is_active j ≡ false
  pub completed : (n : ℕ) → has_run n i ≡ true → has_run n j ≡ true

pub Change-refl : (i : SubsessionInfo) → Change i i
Change-refl i = record { same = refl; ended = λ e. e; completed = λ n e. e }

pub Change-trans : (i j k : SubsessionInfo) → Change i j → Change j k → Change i k
Change-trans i j k c d = record {
  same = c.same ∙ d.same;
  ended = λ e. d.ended (c.ended e);
  completed = λ n e. d.completed n (c.completed n e);
}

-- Every record is there still, changed at most like that, and the records stand under their ids.
pub record Evolved (before after : Dict SubsessionInfo) : Type 0 where
  pub changed :
      (id : String) (i : SubsessionInfo)
      → get id before ≡ some i
      → (j : SubsessionInfo) × (get id after ≡ some j) × Change i j
  pub own_ids : (id : String) (i : SubsessionInfo) → get id after ≡ some i → i.id ≡ id

pub Evolved-refl :
    (d : Dict SubsessionInfo)
    → ((id : String) (i : SubsessionInfo) → get id d ≡ some i → i.id ≡ id)
    → Evolved d d
Evolved-refl d k = record { changed = λ id i e. (i, e, Change-refl i); own_ids = k }

-- Writing a changed record under its own id.
pub Evolved-put :
    (before after : Dict SubsessionInfo) (sub_id : String) (i i' : SubsessionInfo)
    → get sub_id after ≡ some i
    → Change i i'
    → Evolved before after
    → Evolved before (put sub_id i' after)
Evolved-put before after sub_id i i' e c h = record {
  changed = λ id k f. place id k (h.changed id k f);
  own_ids = λ id j f. ground (
    arith,
    get-put id sub_id i' after,
    f,
    h.own_ids id j,
    h.own_ids sub_id i e,
    same_id,
    eq_iff sub_id id,
  );
}
  where
    same_id : i.id ≡ i'.id
    same_id = ap (λ t. t.0) c.same

    place :
        (id : String) (k : SubsessionInfo)
        → (j : SubsessionInfo) × (get id after ≡ some j) × Change k j
        → (j : SubsessionInfo) × (get id (put sub_id i' after) ≡ some j) × Change k j
    place id k (j, f, d) = elim (Bool-cases (str_eq sub_id id)) [
      | inr q ↦ (j, rw (get-put id sub_id i' after) (rw q f), d)
      | inl q ↦
          let p : sub_id ≡ id = ground (arith, q, eq_iff sub_id id) in
          let here : j ≡ i = cc (e, f, p) in
          (
            i',
            rw (get-put id sub_id i' after) (rw q refl),
            Change-trans k j i' d (subst (λ x. Change x i') (sym here) c),
          )
    ]

pub Change-closed_info :
    (now : ℕ) (c : Closing) (i : SubsessionInfo) → IsTerminal c → Change i (closed_info now c i)
unfolding closed_info
Change-closed_info now c i t = record {
  same = ground arith;
  ended = λ e. ap active_status (status-closed_info now c i) ∙ t;
  completed = λ n e. ground (arith, e);
}

pub under_own_id :
    (id : String) (i : SubsessionInfo) (d : Dict SubsessionInfo)
    → get id d ≡ some i
    → i.id ≡ id
    → get i.id d ≡ some i
under_own_id id i d e p = subst (λ k. get k d ≡ some i) (sym p) e
