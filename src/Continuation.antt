-- ===== src/Continuation.antt =====
-- src/robotsix_chat/continuation/store.py: one pending continuation, fired after a restart, and the
-- guardrail on consecutive automatic ones. `disk` is the JSON file as parsed; `writable` says that
-- the file system takes the write. The clock's text is an argument.
pub mod Guardrail
use Prim.Native.String
use robotsix_chat.Base.{
  ℕ, zero, suc, ◌+◌, String, Bool, Option, none, some, List, [], ◌∷◌, ◌++◌, length, last_n, ltb,
  leb, str_eq, if◌then◌else◌,
}

pub record AuditEntry : Type 0 where
  pub timestamp : String
  pub event : String
  pub session_id : Option String
  pub prompt_preview : Option String
  -- the count and the limit that the text of the reason shows
  pub reason : Option (ℕ × ℕ)

-- `prompt[:n]`
abbrev pub first_chars : ℕ → String → String
first_chars zero s = String.[]
first_chars (suc n) String.[] = String.[]
first_chars (suc n) (String.◌∷◌ c s) = String.◌∷◌ c (first_chars n s)

pub record ContinuationState : Type 0 where
  pub pending_session_id : String
  pub pending_prompt : String
  pub pending_created_at : String
  pub consecutive_count : ℕ
  pub audit_log : List AuditEntry

pub record ContinuationStore : Type 0 where
  pub max_consecutive : ℕ
  pub writable : Bool
  pub state : ContinuationState
  pub disk : Option ContinuationState

abbrev pub initial_state : ContinuationState
initial_state = record {
  pending_session_id = "";
  pending_prompt = "";
  pending_created_at = "";
  consecutive_count = 0;
  audit_log = [];
}

abbrev pub max_audit_log_entries : ℕ
max_audit_log_entries = 200

unfoldable pub trim : List AuditEntry → List AuditEntry
trim log = if ltb max_audit_log_entries (length log) then last_n max_audit_log_entries log else log

-- The part of an entry that is not its time.
pub record Happening : Type 0 where
  pub event : String
  pub session_id : Option String
  pub prompt_preview : Option String
  pub reason : Option (ℕ × ℕ)

abbrev pub happening : String → Option String → Happening
happening event session_id = record {
  event = event;
  session_id = session_id;
  prompt_preview = none;
  reason = none;
}

abbrev pub entry : String → Happening → AuditEntry
entry now h = record {
  timestamp = now;
  event = h.event;
  session_id = h.session_id;
  prompt_preview = h.prompt_preview;
  reason = h.reason;
}

unfoldable pub append_audit : String → Happening → ContinuationState → ContinuationState
append_audit now h s = record s { audit_log = trim (s.audit_log ++ entry now h ∷ []) }

unfoldable pub persist : ContinuationStore → ContinuationStore
persist c = record c { disk = if c.writable then some c.state else c.disk }

abbrev pub clear_pending : ContinuationState → ContinuationState
clear_pending s = record s { pending_session_id = ""; pending_prompt = ""; pending_created_at = "" }

-- The store that a new process builds from the file; a missing file gives the initial state.
unfoldable pub load : ContinuationStore → ContinuationStore
load c = record c { state = elim c.disk [ none ↦ initial_state | some s ↦ s ] }

abbrev pub armed : String → String → Happening
armed session_id prompt = record (happening "armed" (some session_id)) {
  prompt_preview = some (first_chars 200 prompt);
}

abbrev pub blocked : String → ContinuationStore → Happening
blocked session_id c = record (happening "guardrail_blocked" (some session_id)) {
  reason = some (c.state.consecutive_count, c.max_consecutive);
}

unfoldable pub schedule : String → String → String → ContinuationStore → ContinuationStore
unfolding append_audit persist
schedule now session_id prompt c = persist (record c {
  state = append_audit now (armed session_id prompt) (record (c.state) {
    pending_session_id = session_id;
    pending_prompt = prompt;
    pending_created_at = now;
  });
})

-- The returned text is left out.
unfoldable pub cancel : String → ContinuationStore → ContinuationStore
unfolding append_audit persist
cancel now c =
    if str_eq c.state.pending_session_id ""
    then c
    else persist (record c {
      state =
          append_audit now (happening "cancelled" (some c.state.pending_session_id))
            (clear_pending c.state);
    })

-- A `(session_id, prompt)` pair; `none` stands for `(None, None)`.
unfoldable pub consume_pending :
    String → ContinuationStore → ContinuationStore × Option (String × String)
unfolding append_audit persist
consume_pending now c =
    let sid = c.state.pending_session_id in
    if str_eq sid ""
    then (c, none)
    else if leb c.max_consecutive c.state.consecutive_count
    then (
      persist (record c { state = clear_pending (append_audit now (blocked sid c) c.state) }),
      none,
    )
    else (
      persist (record c {
        state =
            append_audit now (happening "fired" (some sid)) (record (clear_pending c.state) {
              consecutive_count = c.state.consecutive_count + 1;
            });
      }),
      some (sid, c.state.pending_prompt),
    )

unfoldable pub reset_consecutive : String → ContinuationStore → ContinuationStore
unfolding append_audit persist
reset_consecutive now c =
    if ltb 0 c.state.consecutive_count
    then persist (record c {
      state =
          append_audit now (happening "consecutive_reset" none)
            (record (c.state) { consecutive_count = 0 });
    })
    else c
