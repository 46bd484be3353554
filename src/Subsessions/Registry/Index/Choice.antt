-- ===== src/Subsessions/Registry/Index/Choice.antt =====
-- What the two searches for a record to give up promise: a best candidate exactly when there is one.
use robotsix_chat.Base.{
  ℕ, String, Bool, true, false, ◌&&◌, ◌||◌, Option, none, some, List, [], ◌∷◌, ◌≡◌, refl, ap, ◌∙◌,
  sym, arith, elem, elem-cons, eq_iff, ltb, ◌==◌, ◌⊎◌, inl, inr, Bool-cases, Option-cases,
}
use robotsix_chat.Base.Dict.{get}
use robotsix_chat.Subsessions.Model.{SubsessionInfo}
use robotsix_chat.Subsessions.Registry.State.{Registry}
use robotsix_chat.Subsessions.Registry.Index.{
  choose, select, reusable, older, owned_ids, find_paused_for_reuse, score, reclaimable, preferred,
  ids_of_others, find_stale_for_reclaim,
}

-- The record stands under one of the ids and passes the test.
pub record IsCandidate (cand : SubsessionInfo → Bool) (ids : List String) (r : Registry)
    (i : SubsessionInfo) : Type 0 where
  pub key : String
  pub listed : elem key ids ≡ true
  pub found : get key r.subs ≡ some i
  pub passes : cand i ≡ true

abbrev pub NoCandidate : (SubsessionInfo → Bool) → List String → Registry → Type 0
NoCandidate cand ids r = (i : SubsessionInfo) → ¬ IsCandidate cand ids r i

-- A candidate that no candidate beats.
pub record IsBest (cand : SubsessionInfo → Bool) (beats : SubsessionInfo → SubsessionInfo → Bool)
    (ids : List String) (r : Registry) (b : SubsessionInfo) : Type 0 where
  pub candidate : IsCandidate cand ids r b
  pub unbeaten : (i : SubsessionInfo) → IsCandidate cand ids r i → beats i b ≡ false

module _ (cand : SubsessionInfo → Bool) (beats : SubsessionInfo → SubsessionInfo → Bool)
    (irreflexive : (i : SubsessionInfo) → beats i i ≡ false)
    (asymmetric : (i b : SubsessionInfo) → beats i b ≡ true → beats b i ≡ false)
    (negatively_transitive : (i b c : SubsessionInfo)
      → beats i b ≡ false
      → beats b c ≡ false
      → beats i c ≡ false)
    (r : Registry) where
  choose_best :
      (b : SubsessionInfo) (o : Option SubsessionInfo)
      → (c : SubsessionInfo) × (choose cand beats o (some b) ≡ some c)
        × (beats b c ≡ false)
        × ((i : SubsessionInfo) → o ≡ some i → cand i ≡ true → beats i c ≡ false)
        × ((c ≡ b) ⊎ ((o ≡ some c) × (cand c ≡ true)))
  choose_best b none = (b, refl, irreflexive b, λ i e. cc, inl refl)
  choose_best b (some i) = elim (Bool-cases (cand i)) [
    | inr p ↦ (
      b,
      rw p,
      irreflexive b,
      λ j e q. absurd (ground (arith, e, p, q, ap cand (injective e))),
      inl refl,
    )
    | inl p ↦ elim (Bool-cases (beats i b)) [
      | inl q ↦ (
        i,
        rw (p, q),
        asymmetric i b q,
        λ j e _. ap (λ x. beats x i) (sym (injective e)) ∙ irreflexive i,
        inr (refl, p),
      )
      | inr q ↦ (
        b,
        rw (p, q),
        irreflexive b,
        λ j e _. ap (λ x. beats x b) (sym (injective e)) ∙ q,
        inl refl,
      )
    ]
  ]
    where
      injective : {j : SubsessionInfo} → some i ≡ some j → i ≡ j
      injective e = cc

  -- The best so far is carried along: it is kept or replaced by one that it does not beat.
  select_best :
      (b : SubsessionInfo) (ids : List String)
      → (c : SubsessionInfo) × (select cand beats (some b) ids r ≡ some c)
        × (beats b c ≡ false)
        × ((i : SubsessionInfo) → IsCandidate cand ids r i → beats i c ≡ false)
        × ((c ≡ b) ⊎ IsCandidate cand ids r c)
  unfolding select
  select_best b [] = (b, refl, irreflexive b, λ i p. absurd (ground (arith, p.listed)), inl refl)
  select_best b (id ∷ ids) =
      let (d, de, bd, seen, from) = choose_best b (get id r.subs) in
      let (c, ce, dc, rest, origin) = select_best d ids in
      (
        c,
        rw de ce,
        negatively_transitive b d c bd dc,
        λ i p. elim (elem-cons p.key id ids p.listed) [
          | inl e ↦
              negatively_transitive i d c
                (seen i (ap (λ (k : String). get k r.subs) e ∙ p.found) p.passes) dc
          | inr e ↦ rest i (record { key = p.key; listed = e; found = p.found; passes = p.passes })
        ],
        elim origin [
          | inr p ↦ inr (later id ids c p)
          | inl e ↦ elim from [
            | inl f ↦ inl (e ∙ f)
            | inr f ↦ inr (record {
              key = id;
              listed = head id ids;
              found = f.0 ∙ ap some (sym e);
              passes = ap cand e ∙ f.1;
            })
          ]
        ],
      )
    where
      later :
          (id : String) (ids : List String) (c : SubsessionInfo)
          → IsCandidate cand ids r c
          → IsCandidate cand (id ∷ ids) r c
      later id ids c p = record {
        key = p.key;
        listed = ground (arith, p.listed);
        found = p.found;
        passes = p.passes;
      }

      head : (id : String) (ids : List String) → elem id (id ∷ ids) ≡ true
      head id ids = ground (arith, eq_iff id id)

  NoCandidate-cons :
      (id : String) (ids : List String)
      → ((i : SubsessionInfo) → get id r.subs ≡ some i → cand i ≡ false)
      → NoCandidate cand ids r
      → NoCandidate cand (id ∷ ids) r
  NoCandidate-cons id ids here lacks i p = elim (elem-cons p.key id ids p.listed) [
    | inl e ↦
        absurd (ground (arith, p.passes, here i (ap (λ (k : String). get k r.subs) e ∙ p.found)))
    | inr e ↦ lacks i (record { key = p.key; listed = e; found = p.found; passes = p.passes })
  ]

  IsBest-cons :
      (id : String) (ids : List String) (b : SubsessionInfo)
      → ((i : SubsessionInfo) → get id r.subs ≡ some i → cand i ≡ false)
      → IsBest cand beats ids r b
      → IsBest cand beats (id ∷ ids) r b
  IsBest-cons id ids b here best = record {
    candidate = record {
      key = best.candidate.key;
      listed = ground (arith, best.candidate.listed);
      found = best.candidate.found;
      passes = best.candidate.passes;
    };
    unbeaten = λ i p. elim (elem-cons p.key id ids p.listed) [
      | inl e ↦
          absurd (ground (arith, p.passes, here i (ap (λ (k : String). get k r.subs) e ∙ p.found)))
      | inr e ↦
          best.unbeaten i (record { key = p.key; listed = e; found = p.found; passes = p.passes })
    ];
  }

  abbrev Outcome : List String → Option SubsessionInfo → Type 0
  Outcome ids out =
      ((out ≡ none) × NoCandidate cand ids r)
      ⊎ ((b : SubsessionInfo) × (out ≡ some b) × IsBest cand beats ids r b)

  select-cons_skip :
      (id : String) (ids : List String)
      → ((i : SubsessionInfo) → get id r.subs ≡ some i → cand i ≡ false)
      → Outcome ids (select cand beats none ids r)
      → Outcome (id ∷ ids) (select cand beats none ids r)
  select-cons_skip id ids here (inl (e, lacks)) = inl (e, NoCandidate-cons id ids here lacks)
  select-cons_skip id ids here (inr (b, e, best)) = inr (b, e, IsBest-cons id ids b here best)

  first_best :
      (id : String) (ids : List String) (i : SubsessionInfo)
      → get id r.subs ≡ some i
      → cand i ≡ true
      → Outcome (id ∷ ids) (select cand beats (some i) ids r)
  first_best id ids i e p =
      let (c, ce, ic, rest, origin) = select_best i ids in
      inr (
        c,
        ce,
        record {
          candidate = elim origin [
            | inl f ↦ record {
              key = id;
              listed = ground (arith, eq_iff id id);
              found = e ∙ ap some (sym f);
              passes = ap cand f ∙ p;
            }
            | inr q ↦ record {
              key = q.key;
              listed = ground (arith, q.listed);
              found = q.found;
              passes = q.passes;
            }
          ];
          unbeaten = λ j q. elim (elem-cons q.key id ids q.listed) [
            | inl f ↦
                let same : i ≡ j = cc (ap (λ (k : String). get k r.subs) f, q.found, e) in
                ap (λ x. beats x c) (sym same) ∙ ic
            | inr f ↦
                rest j (record { key = q.key; listed = f; found = q.found; passes = q.passes })
          ];
        },
      )

  select-Outcome : (ids : List String) → Outcome ids (select cand beats none ids r)
  unfolding select
  select-Outcome [] = inl (refl, λ i p. absurd (ground (arith, p.listed)))
  select-Outcome (id ∷ ids) = elim (Option-cases (get id r.subs)) [
    | inl e ↦
        rw (e, select)
          (select-cons_skip id ids (λ i f. absurd (ground (arith, e, f))) (select-Outcome ids))
    | inr (i, e) ↦ elim (Bool-cases (cand i)) [
      | inl p ↦ rw (e, select) (rw p (first_best id ids i e p))
      | inr p ↦
          rw (e, select)
            (rw p (
              select-cons_skip id ids (λ j f. ap cand (injective (sym f ∙ e)) ∙ p)
                (select-Outcome ids)))
    ]
  ]
    where
      injective : {j i : SubsessionInfo} → some j ≡ some i → j ≡ i
      injective e = cc

preferred_asymmetric : (i b : SubsessionInfo) → preferred i b ≡ true → preferred b i ≡ false
preferred_asymmetric i b h =
    ranks (score i.status) (score b.status) i.last_activity_at b.last_activity_at h
  where
    ranks :
        (s t m n : ℕ)
        → (ltb t s || (s == t) && ltb m n) ≡ true
        → (ltb s t || (t == s) && ltb n m) ≡ false
    ranks s t m n h = ground arith

preferred_transitive :
    (i b c : SubsessionInfo) → preferred i b ≡ false → preferred b c ≡ false → preferred i c ≡ false
preferred_transitive i b c h k =
    ranks (score i.status) (score b.status) (score c.status) i.last_activity_at b.last_activity_at
      c.last_activity_at h k
  where
    ranks :
        (s t u m n o : ℕ)
        → (ltb t s || (s == t) && ltb m n) ≡ false
        → (ltb u t || (t == u) && ltb n o) ≡ false
        → (ltb u s || (s == u) && ltb m o) ≡ false
    ranks s t u m n o h k = ground arith

-- The slot of a paused monitor of the conversation is offered exactly when there is one, and then it
-- is that of one which none of the others has been inactive for longer than.
pub find_paused_for_reuse_lem :
    (owner : String) (r : Registry)
    → ((find_paused_for_reuse owner r ≡ none) × NoCandidate reusable (owned_ids owner r) r)
      ⊎ ((b : SubsessionInfo) × (find_paused_for_reuse owner r ≡ some b.id)
          × IsBest reusable older (owned_ids owner r) r b)
unfolding find_paused_for_reuse
find_paused_for_reuse_lem owner r =
    elim (select-Outcome reusable older (λ i. ground arith) (λ i b h. ground arith)
      (λ i b c h k. ground arith) r (owned_ids owner r)) [
        | inl (e, lacks) ↦ inl (rw e, lacks)
        | inr (b, e, best) ↦ inr (b, rw e, best)
      ]

-- A subsession of another conversation is offered for reclaiming exactly when one has been sleeping
-- or paused, untouched, for the given time. A sleeping one is preferred to every paused one, and of
-- two alike the one that has been inactive for longer.
pub find_stale_for_reclaim_lem :
    (exclude : String) (stale_seconds : ℕ) (r : Registry)
    → let ids = ids_of_others exclude r.by_owner in
      ((find_stale_for_reclaim exclude stale_seconds r ≡ none)
        × NoCandidate (reclaimable r.now stale_seconds) ids r)
      ⊎ ((b : SubsessionInfo) × (find_stale_for_reclaim exclude stale_seconds r ≡ some b)
          × IsBest (reclaimable r.now stale_seconds) preferred ids r b)
unfolding find_stale_for_reclaim
find_stale_for_reclaim_lem exclude stale_seconds r =
    select-Outcome (reclaimable r.now stale_seconds) preferred (λ i. ground arith)
      (λ i b h. preferred_asymmetric i b h) (λ i b c h k. preferred_transitive i b c h k) r
      (ids_of_others exclude r.by_owner)
