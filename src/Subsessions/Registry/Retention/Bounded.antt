-- ===== src/Subsessions/Registry/Retention/Bounded.antt =====
-- `prune_terminal` keeps every active record and at most `max_terminal_entries` terminal ones.
use robotsix_chat.Base.{
  ℕ, zero, suc, ◌+◌, ◌-◌, ◌≤◌, String, Bool, true, false, not, some, List, [], ◌∷◌, ◌≡◌, refl, ap,
  subst, ◌∙◌, arith, eq_iff, keep_if, length,
}
use robotsix_chat.Base.Dict.{Dict, get, remove, values, count_values}
use robotsix_chat.Base.Dict.Laws.{get-remove}
use robotsix_chat.Subsessions.Model.{SubsessionInfo, is_active}
use robotsix_chat.Subsessions.Registry.State.{Registry}
use robotsix_chat.Subsessions.Registry.Retention.{
  drop_record, drop_each, terminal_records, prune_terminal, take, sort_by, max_terminal_entries,
}
use robotsix_chat.Subsessions.Registry.Retention.Records.{
  Keyed, Listed, id_in, Keyed-remove, count_values-remove, length-sort_by, Listed-sort_by,
  Listed-values, length-values, Listed-remove,
}

pub subs-drop_record :
    (i : SubsessionInfo) (r : Registry) → (drop_record i r).subs ≡ remove i.id r.subs
unfolding drop_record
subs-drop_record i r = ground arith

length-take : (n : ℕ) (xs : List SubsessionInfo) → n ≤ length xs → length (take n xs) ≡ n
length-take zero xs h = refl
length-take (suc n) [] h = omega (arith, h)
length-take (suc n) (x ∷ xs) h = omega (arith, length-take n xs (omega (arith, h)))

id_in-take :
    (s : String) (n : ℕ) (xs : List SubsessionInfo)
    → id_in s xs ≡ false
    → id_in s (take n xs) ≡ false
id_in-take s zero xs h = refl
id_in-take s (suc n) [] h = refl
id_in-take s (suc n) (x ∷ xs) h = ground (arith, h, id_in-take s n xs)

module _ (p : SubsessionInfo → Bool) where
  Listed-take :
      (d : Dict SubsessionInfo) (n : ℕ) (xs : List SubsessionInfo)
      → Listed p d xs
      → Listed p d (take n xs)
  Listed-take d zero xs h = record {}
  Listed-take d (suc n) [] h = h
  Listed-take d (suc n) (x ∷ xs) (fresh, here, pass, rest) =
      (id_in-take x.id n xs fresh, here, pass, Listed-take d n xs rest)

  -- What dropping listed records does to the dictionary.
  pub record Dropped (n : ℕ) (before after : Dict SubsessionInfo) : Type 0 where
    pub keyed : Keyed after
    pub fewer : count_values p after + n ≡ count_values p before
    pub kept :
        (k : String) (i : SubsessionInfo)
        → p i ≡ false
        → get k before ≡ some i
        → get k after ≡ some i
    pub old : (k : String) (i : SubsessionInfo) → get k after ≡ some i → get k before ≡ some i

  Dropped-drop_each :
      (is : List SubsessionInfo) (r : Registry)
      → Keyed r.subs
      → Listed p r.subs is
      → Dropped (length is) r.subs (drop_each is r).subs
  unfolding drop_each
  Dropped-drop_each [] r k h = record {
    keyed = k;
    fewer = omega arith;
    kept = λ s i q e. e;
    old = λ s i e. e;
  }
  Dropped-drop_each (i ∷ is) r k (fresh, here, pass, rest) =
      let same = subs-drop_record i r in
      let d =
        Dropped-drop_each is (drop_record i r) (rw same (Keyed-remove i.id r.subs k))
          (rw same (Listed-remove p i is r.subs fresh rest)) in
      record {
        keyed = d.keyed;
        fewer = ground (
          arith,
          pass,
          d.fewer,
          ap (count_values p) same,
          count_values-remove p i.id i r.subs k here,
        );
        kept = λ s j q e. d.kept s j q (
            ground (
              arith,
              q,
              e,
              pass,
              here,
              ap (get s) same,
              get-remove s i.id r.subs,
              eq_iff i.id s,
              ap p,
            ));
        old = λ s j e. ground (arith, d.old s j e, ap (get s) same, get-remove s i.id r.subs);
      }

abbrev pub is_terminal : SubsessionInfo → Bool
is_terminal i = not (is_active i)

pub Dropped-prune_terminal :
    (r : Registry)
    → Keyed r.subs
    → Dropped is_terminal
        (length (terminal_records r) - max_terminal_entries)
        r.subs
        (prune_terminal r).subs
unfolding prune_terminal terminal_records
Dropped-prune_terminal r k =
    let found = keep_if is_terminal (values r.subs) in
    let all = sort_by (λ i. i.last_activity_at) found in
    let n = length all - max_terminal_entries in
    subst (λ m. Dropped is_terminal m r.subs (drop_each (take n all) r).subs)
      (length-take n all (omega arith))
      (Dropped-drop_each is_terminal (take n all) r k (
        Listed-take is_terminal r.subs n all (
          Listed-sort_by is_terminal r.subs (λ i. i.last_activity_at) found
            (Listed-values is_terminal r.subs k))))

length-terminal_records :
    (r : Registry) → length (terminal_records r) ≡ count_values is_terminal r.subs
unfolding terminal_records
length-terminal_records r =
    length-sort_by (λ i. i.last_activity_at) (keep_if is_terminal (values r.subs))
    ∙ length-values is_terminal r.subs

-- After `prune_terminal`, at most `max_terminal_entries` terminal records are left, every active
-- record is left as it was, and no record is new or changed. Each record stands once, under its id.
pub pruned :
    (r : Registry)
    → Keyed r.subs
    → (count_values is_terminal (prune_terminal r).subs ≤ max_terminal_entries)
      × ((id : String) (i : SubsessionInfo)
          → is_active i ≡ true
          → get id r.subs ≡ some i
          → get id (prune_terminal r).subs ≡ some i)
      × ((id : String) (i : SubsessionInfo)
          → get id (prune_terminal r).subs ≡ some i
          → get id r.subs ≡ some i)
pruned r k =
    let d = Dropped-prune_terminal r k in
    (
      omega (arith, d.fewer, length-terminal_records r),
      λ id i a e. d.kept id i (ground (arith, a)) e,
      d.old,
    )
