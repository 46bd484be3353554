-- ===== src/Subsessions/Registry/Create/Dedup.antt =====
-- A subsession that `create` registers holds its deduplication key against the next `create`.
use robotsix_chat.Base.{
  String, true, Option, none, some, List, [], ◌∷◌, ◌≡◌, refl, ap, subst, ◌∙◌, sym, arith, length,
  ◌-◌,
}
use robotsix_chat.Base.Dict.{get}
use robotsix_chat.Base.Dict.Laws.{get-put_same}
use robotsix_chat.Subsessions.Model.{
  SubsessionInfo, SubsessionKind, InboxMessage, is_active, active_status,
}
use robotsix_chat.Subsessions.Registry.State.{Registry, publish, persist}
use robotsix_chat.Subsessions.Registry.Retention.{
  drop_record, drop_each, prune_terminal, terminal_records, take, max_terminal_entries,
}
use robotsix_chat.Subsessions.Registry.Retention.Records.{Keyed, Keyed-put}
use robotsix_chat.Subsessions.Registry.Retention.Bounded.{pruned}
use robotsix_chat.Subsessions.Registry.Create.{
  Request, Created, created, dedup_error, new_info, register, check_dedup, known, resolve, finish,
  create, index_key, entered,
}

active_dedup_keys-drop_each :
    (is : List SubsessionInfo) (r : Registry)
    → (drop_each is r).active_dedup_keys ≡ r.active_dedup_keys
unfolding drop_each
active_dedup_keys-drop_each [] r = refl
active_dedup_keys-drop_each (i ∷ is) r = active_dedup_keys-drop_each is (drop_record i r) ∙ one i r
  where
    one :
        (i : SubsessionInfo) (r : Registry)
        → (drop_record i r).active_dedup_keys ≡ r.active_dedup_keys
    one i r = unfold drop_record in (ground arith)

active_dedup_keys-prune_terminal :
    (r : Registry) → (prune_terminal r).active_dedup_keys ≡ r.active_dedup_keys
unfolding prune_terminal
active_dedup_keys-prune_terminal r =
    active_dedup_keys-drop_each
      (take (length (terminal_records r) - max_terminal_entries) (terminal_records r)) r

active_dedup_keys-register :
    (info : SubsessionInfo) (inbox : List InboxMessage) (r : Registry)
    → (register info inbox r).active_dedup_keys
      ≡ index_key info.dedup_key info.id r.active_dedup_keys
unfolding register entered publish persist
active_dedup_keys-register info inbox r = active_dedup_keys-prune_terminal (entered info inbox r)

get-register :
    (info : SubsessionInfo) (inbox : List InboxMessage) (r : Registry)
    → Keyed r.subs
    → is_active info ≡ true
    → get info.id (register info inbox r).subs ≡ some info
unfolding register entered publish persist
get-register info inbox r k a =
    (pruned (entered info inbox r) (Keyed-put info r.subs k)).1 info.id info a
      (get-put_same info.id info r.subs)

subs-check_dedup :
    (kind : SubsessionKind) (key : Option String) (r : Registry)
    → (check_dedup kind key r).0.subs ≡ r.subs
unfolding check_dedup
subs-check_dedup kind none r = refl
subs-check_dedup kind (some key) r = ground arith

-- What holds of a record that `create` has just registered.
record Registered (key : String) (info : SubsessionInfo) (r : Registry) : Type 0 where
  there : get info.id r.subs ≡ some info
  active : is_active info ≡ true
  holds : get key r.active_dedup_keys ≡ some info.id

info_of : SubsessionInfo → Created → SubsessionInfo
info_of d (created i) = i
info_of d (dedup_error h) = d

finish-Registered :
    (id : String) (q : Request) (key : String) (s : Registry) (o : Option String)
    (info : SubsessionInfo)
    → Keyed s.subs
    → q.dedup_key ≡ some key
    → (finish id q (s, o)).1 ≡ created info
    → Registered key info (finish id q (s, o)).0
unfolding finish new_info active_status info_of
finish-Registered id q key s (some holder) info k d e = absurd (ground (arith, e))
finish-Registered id q key s none info k d e =
    subst (λ i. Registered key i (finish id q (s, none)).0) (ap (info_of info) e)
      (record {
        there = get-register (new_info id q s.now) q.inbox s k refl;
        active = refl;
        holds =
            ap (get key) (active_dedup_keys-register (new_info id q s.now) q.inbox s)
            ∙ (rw d (get-put_same key id s.active_dedup_keys));
      })

-- The second `create`.
check_dedup-Registered :
    (kind : SubsessionKind) (key : String) (info : SubsessionInfo) (r : Registry)
    → Registered key info r
    → check_dedup kind (some key) r ≡ (r, some info.id)
unfolding check_dedup
check_dedup-Registered kind key info r h = ground (arith, h.there, h.active, h.holds)

create-unknown :
    (fresh : String) (q : Request) (r : Registry)
    → known q.sub_id r ≡ none
    → create fresh q r ≡ finish (resolve q.sub_id fresh) q (check_dedup q.kind q.dedup_key r)
unfolding create
create-unknown fresh q r u = rw (u, create) refl

-- After a `create` with a deduplication key registered a new record, a `create` of another new record
-- with the same key is refused with that record's id, and changes nothing. The records stand
-- under their own ids.
pub second_refused :
    (fresh fresh' key : String) (q q' : Request) (r : Registry) (info : SubsessionInfo)
    → Keyed r.subs
    → known q.sub_id r ≡ none
    → q.dedup_key ≡ some key
    → q'.dedup_key ≡ some key
    → (create fresh q r).1 ≡ created info
    → let r' = (create fresh q r).0 in
      known q'.sub_id r' ≡ none → create fresh' q' r' ≡ (r', dedup_error info.id)
unfolding finish
second_refused fresh fresh' key q q' r info k unknown d d' e unknown' =
    let r' : Registry = (create fresh q r).0 in
    let first = create-unknown fresh q r unknown in
    let c = check_dedup q.kind q.dedup_key r in
    let h =
      finish-Registered (resolve q.sub_id fresh) q key c.0 c.1 info (rw subs-check_dedup k) d
        (ap (λ o. o.1) (sym first) ∙ e) in
    let h' = subst (λ (o : Registry × Created). Registered key info o.0) (sym first) h in
    create-unknown fresh' q' r' unknown'
    ∙ ap (λ o. finish (resolve q'.sub_id fresh') q' (check_dedup q'.kind o r')) d'
    ∙ ap (finish (resolve q'.sub_id fresh') q') (check_dedup-Registered q'.kind key info r' h')
