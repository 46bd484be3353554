-- ===== src/Subsessions/Checkpoint/Preserve.antt =====
-- The system-owned keys survive when an agent replaces a checkpoint, and no other key changes.
use robotsix_chat.Base.{
  String, Bool, false, ◌||◌, Option, none, some, [], ◌≡◌, refl, ap, ◌∙◌, sym, arith, str_eq,
  eq_refl, if◌then◌else◌, Option-cases, inl, inr,
}
use robotsix_chat.Base.Dict.{get}
use robotsix_chat.Base.Dict.Laws.{get-put}
use robotsix_chat.Subsessions.Model.{Value, str, Checkpoint, SubsessionInfo, SubsessionKind}
use robotsix_chat.Subsessions.Checkpoint.{
  cp_get, merge_some, as_str, or_key, positive_int, any_int, any_arr, checkpoint_ticket_id,
  checkpoint_auto_stop_no_change_runs, checkpoint_no_change_pause_count, preserve_event_ticket_id,
  preserve_periodic_auto_stop_no_change_runs, preserve_periodic_no_change_pause_count,
  preserve_periodic_progress_flags, preserved,
}

-- The first of two readings that is there.
abbrev pub or_else {ℓ} : {A : Type ℓ} → Option A → Option A → Option A
or_else none b = b
or_else (some a) b = some a

cp_get-merge_some :
    (k key : String) (o : Option Value) (cp : Option Checkpoint)
    → cp_get (merge_some key o cp) k
      ≡ (if str_eq key k then or_else o (cp_get cp k) else cp_get cp k)
unfolding get
cp_get-merge_some k key none cp = ground arith
cp_get-merge_some k key (some v) none = ground (arith, get-put k key v [])
cp_get-merge_some k key (some v) (some cp) = ground (arith, get-put k key v cp)

-- A key that is read by a test that what passes it passes again.
module _ (key : String) (reading : Option Value → Option Value)
    (again : (v : Option Value) → reading (reading v) ≡ reading v) where
  abbrev pub keep_key : Option Checkpoint → Option Checkpoint → Option Checkpoint
  keep_key old cp = elim (reading (cp_get cp key)) [
    | some v ↦ cp
    | none ↦ merge_some key (reading (cp_get old key)) cp
  ]

  fallback :
      (old new : Option Value)
      → reading new ≡ none
      → reading (or_else (reading old) new) ≡ reading old
  fallback old new e = elim (Option-cases (reading old)) [
    | inl q ↦ rw q e
    | inr (v, q) ↦ rw q (ap reading (sym q) ∙ again old ∙ q)
  ]

  keep_key-reads :
      (old cp : Option Checkpoint)
      → reading (cp_get (keep_key old cp) key)
        ≡ or_else (reading (cp_get cp key)) (reading (cp_get old key))
  keep_key-reads old cp = elim (Option-cases (reading (cp_get cp key))) [
    | inr (v, e) ↦ rw (e, keep_key) e
    | inl e ↦
        rw (e, keep_key)
          (ap reading
              (cp_get-merge_some key key (reading (cp_get old key)) cp ∙ rw (eq_refl key) refl)
            ∙ fallback (cp_get old key) (cp_get cp key) e)
  ]

  keep_key-others :
      (k : String) (old cp : Option Checkpoint)
      → str_eq key k ≡ false
      → cp_get (keep_key old cp) k ≡ cp_get cp k
  keep_key-others k old cp d = elim (Option-cases (reading (cp_get cp key))) [
    | inr (v, e) ↦ rw (e, keep_key) refl
    | inl e ↦ rw (e, keep_key) (cp_get-merge_some k key (reading (cp_get old key)) cp ∙ rw d refl)
  ]

positive_int-again : (v : Option Value) → positive_int (positive_int v) ≡ positive_int v
positive_int-again v = ground arith

any_int-again : (v : Option Value) → any_int (any_int v) ≡ any_int v
any_int-again v = ground arith

any_arr-again : (v : Option Value) → any_arr (any_arr v) ≡ any_arr v
any_arr-again v = ground arith

-- The three system-owned keys of a periodic record.
abbrev pub periodic_key : String → Bool
periodic_key k =
    str_eq "auto_stop_no_change_runs" k
    || str_eq "no_change_pause_count" k
    || str_eq "recent_progress_flags" k

-- Of a periodic record, each system-owned key (the automatic stop, the pause counter and the progress
-- window) reads after a replacement as in the new checkpoint where that has a valid value, and else as
-- in the old one; every other key reads as in the new one.
pub periodic_keys_kept :
    (info : SubsessionInfo) (cp : Option Checkpoint)
    → info.kind ≡ SubsessionKind.periodic
    → let out = preserved info cp in
      let old = info.checkpoint in
      (checkpoint_auto_stop_no_change_runs out
        ≡ or_else
            (checkpoint_auto_stop_no_change_runs cp)
            (checkpoint_auto_stop_no_change_runs old))
      × (checkpoint_no_change_pause_count out
          ≡ or_else (checkpoint_no_change_pause_count cp) (checkpoint_no_change_pause_count old))
      × (any_arr (cp_get out "recent_progress_flags")
          ≡ or_else
              (any_arr (cp_get cp "recent_progress_flags"))
              (any_arr (cp_get old "recent_progress_flags")))
      × ((k : String) → periodic_key k ≡ false → cp_get out k ≡ cp_get cp k)
unfolding preserved preserve_periodic_auto_stop_no_change_runs
    preserve_periodic_no_change_pause_count preserve_periodic_progress_flags
    checkpoint_auto_stop_no_change_runs checkpoint_no_change_pause_count
periodic_keys_kept info cp e =
    let stop =
      keep_key "auto_stop_no_change_runs" positive_int positive_int-again info.checkpoint cp in
    let paused = keep_key "no_change_pause_count" any_int any_int-again info.checkpoint stop in
    let others_stop = λ (k : String) (q : str_eq "auto_stop_no_change_runs" k ≡ false).
      keep_key-others "auto_stop_no_change_runs" positive_int positive_int-again k info.checkpoint
        cp q in
    let others_pause = λ (k : String) (q : str_eq "no_change_pause_count" k ≡ false).
      keep_key-others "no_change_pause_count" any_int any_int-again k info.checkpoint stop q in
    let others_flags = λ (k : String) (q : str_eq "recent_progress_flags" k ≡ false).
      keep_key-others "recent_progress_flags" any_arr any_arr-again k info.checkpoint paused q in
    rw e (
      ap positive_int (
            others_flags "auto_stop_no_change_runs" refl
            ∙ others_pause "auto_stop_no_change_runs" refl)
          ∙ keep_key-reads "auto_stop_no_change_runs" positive_int positive_int-again
              info.checkpoint cp,
      ap any_int (others_flags "no_change_pause_count" refl)
          ∙ keep_key-reads "no_change_pause_count" any_int any_int-again info.checkpoint stop
          ∙ ap (λ v. or_else (any_int v) (any_int (cp_get info.checkpoint "no_change_pause_count")))
              (others_stop "no_change_pause_count" refl),
      keep_key-reads "recent_progress_flags" any_arr any_arr-again info.checkpoint paused
          ∙ ap (λ v. or_else (any_arr v) (any_arr (cp_get info.checkpoint "recent_progress_flags")))
              (others_pause "recent_progress_flags" refl
                ∙ others_stop "recent_progress_flags" refl),
      λ k q.
          others_flags k (ground (arith, q))
          ∙ others_pause k (ground (arith, q))
          ∙ others_stop k (ground (arith, q)),
    )

checkpoint_ticket_id-again :
    (cp : Option Checkpoint) (s : String) → checkpoint_ticket_id cp ≡ some s → str_eq s "" ≡ false
unfolding checkpoint_ticket_id
checkpoint_ticket_id-again cp s e = ground (arith, e)

or_key-text :
    (old : Option Checkpoint) (key : Option String) (s : String)
    → or_key (checkpoint_ticket_id old) key ≡ some s
    → str_eq s "" ≡ false
or_key-text old key s e = ground (arith, e, checkpoint_ticket_id-again old s)

module _ (cp : Option Checkpoint) where
  ticket_put :
      (s : String)
      → str_eq s "" ≡ false
      → checkpoint_ticket_id (merge_some "ticket_id" (some (str s)) cp) ≡ some s
  unfolding checkpoint_ticket_id
  ticket_put s q = ground (arith, q, cp_get-merge_some "ticket_id" "ticket_id" (some (str s)) cp)

-- Of an event waiter, the ticket id after a replacement is that of the new checkpoint, else that of
-- the old one, else the deduplication key; every other key reads as in the new one.
pub event_ticket_kept :
    (info : SubsessionInfo) (cp : Option Checkpoint)
    → info.kind ≡ SubsessionKind.wait_for_event
    → (checkpoint_ticket_id (preserved info cp)
        ≡ or_else
            (checkpoint_ticket_id cp)
            (or_key (checkpoint_ticket_id info.checkpoint) info.dedup_key))
      × ((k : String) → str_eq "ticket_id" k ≡ false → cp_get (preserved info cp) k ≡ cp_get cp k)
unfolding preserved preserve_event_ticket_id
event_ticket_kept info cp e = rw e (elim (Option-cases (checkpoint_ticket_id cp)) [
  | inr (s, f) ↦ rw (f, preserve_event_ticket_id) (f, λ k q. refl)
  | inl f ↦
      rw (f, preserve_event_ticket_id)
        (go (or_key (checkpoint_ticket_id info.checkpoint) info.dedup_key) refl f)
])
  where
    go :
        (o : Option String)
        → or_key (checkpoint_ticket_id info.checkpoint) info.dedup_key ≡ o
        → checkpoint_ticket_id cp ≡ none
        → (checkpoint_ticket_id (merge_some "ticket_id" (as_str o) cp) ≡ o)
          × ((k : String)
              → str_eq "ticket_id" k ≡ false
              → cp_get (merge_some "ticket_id" (as_str o) cp) k ≡ cp_get cp k)
    go none p f = (f, λ k q. refl)
    go (some s) p f = (
      ticket_put cp s (or_key-text info.checkpoint info.dedup_key s p),
      λ k q. cp_get-merge_some k "ticket_id" (some (str s)) cp ∙ rw q refl,
    )
