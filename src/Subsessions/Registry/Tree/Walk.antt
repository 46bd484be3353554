-- ===== src/Subsessions/Registry/Tree/Walk.antt =====
-- The passes of `list_descendants`: what a pass adds, when it adds nothing, and that it makes progress.
use robotsix_chat.Base.{
  ℕ, ◌≤◌, ◌<◌, String, true, false, not, Option, none, some, List, [], ◌∷◌, ◌++◌, ◌≡◌, refl, ap,
  ◌∙◌, sym, subst, arith, elem, elem-append, eq_iff, ◌⊎◌, inl, inr, Bool-cases, count_if,
}
use robotsix_chat.Subsessions.Model.{SubsessionInfo, opt_in}
use robotsix_chat.Subsessions.Registry.Tree.{Search, is_new, visit, pass}

abbrev pub In : SubsessionInfo → List SubsessionInfo → Type 0
In i [] = ⊥
In i (x ∷ xs) = (x ≡ i) ⊎ In i xs

-- The records of the tree that lie below the root, by the chain of their parents.
pub data Below (tree : List SubsessionInfo) (root : String) : String → Type 0 where
  root_itself : Below tree root root
  child :
      (i : SubsessionInfo) (parent : String)
      → In i tree
      → i.parent_id ≡ some parent
      → Below tree root parent
      → Below tree root i.id

abbrev pub ids : List SubsessionInfo → List String
ids [] = []
ids (i ∷ is) = i.id ∷ ids is

ids-append : (xs ys : List SubsessionInfo) → ids (xs ++ ys) ≡ ids xs ++ ids ys
ids-append [] ys = refl
ids-append (x ∷ xs) ys = ap (λ l. x.id ∷ l) (ids-append xs ys)

-- How many records of the tree are not in the frontier.
abbrev pub missing : List SubsessionInfo → List String → ℕ
missing tree frontier = count_if (λ i. not (elem i.id frontier)) tree

missing-add-le :
    (tree : List SubsessionInfo) (frontier : List String) (x : String)
    → missing tree (frontier ++ x ∷ []) ≤ missing tree frontier
missing-add-le [] frontier x = omega arith
missing-add-le (i ∷ tree) frontier x =
    ground (arith, missing-add-le tree frontier x, elem-append i.id frontier (x ∷ []))

missing-add-lt :
    (tree : List SubsessionInfo) (frontier : List String) (i : SubsessionInfo)
    → In i tree
    → elem i.id frontier ≡ false
    → missing tree (frontier ++ i.id ∷ []) < missing tree frontier
missing-add-lt [] frontier i m e = absurd m
missing-add-lt (x ∷ tree) frontier i (inl p) e = ground (
  arith,
  missing-add-le tree frontier i.id,
  elem-append x.id frontier (i.id ∷ []),
  ap (λ (y : SubsessionInfo). y.id) p,
  ap (λ (y : SubsessionInfo). elem y.id frontier) p,
  eq_iff x.id i.id,
)
missing-add-lt (x ∷ tree) frontier i (inr m) e =
    ground (arith, missing-add-lt tree frontier i m e, elem-append x.id frontier (i.id ∷ []))

module _ (tree : List SubsessionInfo) (root : String) where
  -- What every step of the search keeps.
  pub record IsSearch (s : Search) : Type 0 where
    pub in_order : s.frontier ≡ root ∷ ids s.descendants
    pub sound : (id : String) → elem id s.frontier ≡ true → Below tree root id
    pub not_root : elem root (ids s.descendants) ≡ false

  new_parent :
      (p : Option String) (frontier : List String)
      → opt_in p frontier ≡ true
      → (parent : String) × (p ≡ some parent) × (elem parent frontier ≡ true)
  new_parent none frontier e = absurd (ground (arith, e))
  new_parent (some parent) frontier e = (parent, refl, e)

  found-Below :
      (i : SubsessionInfo) (s : Search)
      → In i tree
      → IsSearch s
      → opt_in i.parent_id s.frontier ≡ true
      → Below tree root i.id
  found-Below i s m h e =
      let (parent, is_parent, in_frontier) = new_parent i.parent_id s.frontier e in
      child i parent m is_parent (h.sound parent in_frontier)

  visit-IsSearch : (i : SubsessionInfo) (s : Search) → In i tree → IsSearch s → IsSearch (visit i s)
  unfolding visit
  visit-IsSearch i s m h = elim (Bool-cases (is_new i s.frontier)) [
    | inr e ↦ rw e h
    | inl e ↦ rw e (record {
      in_order =
          ap (λ l. l ++ i.id ∷ []) h.in_order
          ∙ ap (λ l. root ∷ l) (sym (ids-append s.descendants (i ∷ [])));
      sound = λ id q. elim (Bool-cases (elem id s.frontier)) [
        | inl old ↦ h.sound id old
        | inr fresh ↦
            subst (λ k. Below tree root k)
              (ground (arith, e, q, fresh, elem-append id s.frontier (i.id ∷ []), eq_iff id i.id))
              (found-Below i s m h (ground (arith, e)))
      ];
      not_root = ground (
        arith,
        e,
        h.not_root,
        ids-append s.descendants (i ∷ []),
        elem-append root (ids s.descendants) (i.id ∷ []),
        ap (λ l. elem i.id l) h.in_order,
        eq_iff i.id root,
        eq_iff root i.id,
      );
    })
  ]

  pub pass-IsSearch :
      (part : List SubsessionInfo) (s : Search)
      → ((i : SubsessionInfo) → In i part → In i tree)
      → IsSearch s
      → IsSearch (pass part s)
  unfolding pass
  pass-IsSearch [] s sub h = h
  pass-IsSearch (i ∷ part) s sub h =
      pass-IsSearch part (visit i s) (λ j m. sub j (inr m))
        (visit-IsSearch i s (sub i (inl refl)) h)

-- A pass either leaves the search as it is, with nothing new in the list, or makes progress.
pub record Progress (tree : List SubsessionInfo) (s s' : Search) : Type 0 where
  pub fewer : missing tree s'.frontier ≤ missing tree s.frontier
  pub lower :
      s.changed ≡ false → s'.changed ≡ true → missing tree s'.frontier < missing tree s.frontier
  pub kept : s.changed ≡ true → s'.changed ≡ true
  pub same : s'.changed ≡ false → s' ≡ s

visit-Progress :
    (tree : List SubsessionInfo) (i : SubsessionInfo) (s : Search)
    → In i tree
    → Progress tree s (visit i s)
unfolding visit
visit-Progress tree i s m = elim (Bool-cases (is_new i s.frontier)) [
  | inr e ↦ rw e (record {
    fewer = omega arith;
    lower = λ p q. absurd (ground (arith, p, q));
    kept = λ p. p;
    same = λ p. refl;
  })
  | inl e ↦ rw e (record {
    fewer = missing-add-le tree s.frontier i.id;
    lower = λ p q. missing-add-lt tree s.frontier i m (ground (arith, e));
    kept = λ p. refl;
    same = λ p. absurd (ground (arith, p));
  })
]

Progress-trans :
    (tree : List SubsessionInfo) (a b c : Search)
    → Progress tree a b
    → Progress tree b c
    → Progress tree a c
Progress-trans tree a b c p q = record {
  fewer = omega (arith, p.fewer, q.fewer);
  lower = λ e f. elim (Bool-cases b.changed) [
    | inl g ↦ omega (arith, p.lower e g, q.fewer)
    | inr g ↦ omega (arith, p.fewer, q.lower g f)
  ];
  kept = λ e. q.kept (p.kept e);
  same = λ e. q.same e ∙ p.same (ap (λ (s : Search). s.changed) (sym (q.same e)) ∙ e);
}

pub pass-Progress :
    (tree part : List SubsessionInfo) (s : Search)
    → ((i : SubsessionInfo) → In i part → In i tree)
    → Progress tree s (pass part s)
unfolding pass
pass-Progress tree [] s sub = record {
  fewer = omega arith;
  lower = λ p q. absurd (ground (arith, p, q));
  kept = λ p. p;
  same = λ p. refl;
}
pass-Progress tree (i ∷ part) s sub =
    Progress-trans tree s (visit i s) (pass part (visit i s))
      (visit-Progress tree i s (sub i (inl refl)))
      (pass-Progress tree part (visit i s) (λ j m. sub j (inr m)))

visit-unchanged :
    (i : SubsessionInfo) (s : Search) → (visit i s).changed ≡ false → is_new i s.frontier ≡ false
unfolding visit
visit-unchanged i s e = elim (Bool-cases (is_new i s.frontier)) [
  | inr q ↦ q
  | inl q ↦ absurd (ground (arith, rw q at e))
]

-- A pass that changed nothing has visited every record in vain.
pub pass-closed :
    (part : List SubsessionInfo) (s : Search)
    → (pass part s).changed ≡ false
    → (i : SubsessionInfo) → In i part
    → is_new i s.frontier ≡ false
unfolding pass
pass-closed [] s e i m = absurd m
pass-closed (x ∷ part) s e i m =
    let p = pass-Progress (x ∷ part) part (visit x s) (λ j n. inr n) in
    let idle = ap (λ (t : Search). t.changed) (sym (p.same e)) ∙ e in
    elim m [
      | inl q ↦ subst (λ y. is_new y s.frontier ≡ false) q (visit-unchanged x s idle)
      | inr n ↦
          let there = visit-Progress (x ∷ part) x s (inl refl) in
          subst (λ (t : Search). is_new i t.frontier ≡ false) (there.same idle)
            (pass-closed part (visit x s) e i n)
    ]
