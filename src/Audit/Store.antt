-- ===== src/Audit/Store.antt =====
-- internal/controlplane/audit/store.go: the table of events in its ORDER BY timestamp, id, the record
-- of an event, the purge, and the verification of the chain. No statement of the database fails.
use legator.Common.{
  ℕ, suc, String, Bool, true, false, not, ◌&&◌, ◌||◌, Option, none, some, List, [], ◌∷◌, str_eq,
  ltb, length, ◌-◌, ◌==◌, keep, some_of, if◌then◌else◌, Result, ok, err,
}
use legator.Common.Text.{trim_space}
use legator.Audit.Event.{
  Event, Platform, HashError, genesis_hash, compute_entry_hash, record_in_memory, drop_oldest,
}

-- A row of audit_events.
pub record Row : Type 0 where
  pub id : String
  pub timestamp : String
  pub kind : String
  pub probe_id : String
  pub workspace_id : String
  pub actor : String
  pub summary : String
  pub detail : String
  pub before_val : String
  pub after_val : String
  pub prev_hash : String
  pub entry_hash : String

pub record Store (V : Type 0) : Type 0 where
  pub rows : List Row
  pub log : List (Event V)
  pub memory_limit : ℕ
  pub chain_mode : Bool
  pub chain_key : String
  pub last_entry_hash : String

pub record VerifyResult : Type 0 where
  pub valid : Bool
  pub entries_checked : ℕ
  pub first_invalid_at : Option String

abbrev pub text_of : Option String → String
text_of none = ""
text_of (some s) = s

-- The tests on the columns of hashes, and on a repeated id.
abbrev pub has_chain_data : Row → Bool
has_chain_data r = not (str_eq r.prev_hash "") || not (str_eq r.entry_hash "")

abbrev pub has_id : String → List Row → Bool
has_id id rows = some_of (λ r. str_eq r.id id) rows

-- stringPtr
abbrev string_ptr : String → Option String
string_ptr s = if str_eq (trim_space s) "" then none else some s

-- The answer on a chain that is broken at a row.
abbrev pub broken_at : ℕ → Row → Result HashError VerifyResult
broken_at n r =
    ok (record { valid = false; entries_checked = n; first_invalid_at = string_ptr r.timestamp })

abbrev pub prev_or_genesis : String → String
prev_or_genesis h = if str_eq h "" then genesis_hash else h

-- The hash of the newest signed row, "" if there is none.
unfoldable pub latest_persisted_entry_hash : List Row → String
latest_persisted_entry_hash [] = ""
latest_persisted_entry_hash (r ∷ rs) =
    let later = latest_persisted_entry_hash rs in if str_eq later "" then r.entry_hash else later

module _ {V : Type 0} (go : Platform V) where
  -- The columns of an event.
  unfoldable pub row_of : Event V → Row
  row_of e = record {
    id = e.id;
    timestamp = go.format_time e.timestamp;
    kind = e.kind;
    probe_id = e.probe_id;
    workspace_id = trim_space e.workspace_id;
    actor = e.actor;
    summary = e.summary;
    detail = text_of (go.marshal_value e.detail);
    before_val = text_of (go.marshal_value e.before);
    after_val = text_of (go.marshal_value e.after);
    prev_hash = e.prev_hash;
    entry_hash = e.entry_hash;
  }

  -- A value from its column.
  abbrev pub value_of : String → V
  value_of s =
      if str_eq s "" || str_eq s "null"
      then go.nil
      else elim (go.unmarshal_value s) [ none ↦ go.nil | some v ↦ v ]

  -- The event that VerifyChain reads from a row.
  unfoldable pub event_of : Row → Event V
  event_of r = record {
    id = r.id;
    timestamp = go.parse_time r.timestamp;
    kind = r.kind;
    probe_id = r.probe_id;
    actor = r.actor;
    summary = r.summary;
    workspace_id = r.workspace_id;
    detail = value_of r.detail;
    before = value_of r.before_val;
    after = value_of r.after_val;
    prev_hash = r.prev_hash;
    entry_hash = r.entry_hash;
  }

  -- The order of the table.
  abbrev pub row_before : Row → Row → Bool
  row_before r x =
      go.text_before r.timestamp x.timestamp
      || str_eq r.timestamp x.timestamp && go.text_before r.id x.id

  unfoldable pub insert_row : Row → List Row → List Row
  insert_row r [] = r ∷ []
  insert_row r (x ∷ xs) = if row_before r x then r ∷ x ∷ xs else x ∷ insert_row r xs

  -- persist: INSERT OR IGNORE, and whether a row was inserted.
  unfoldable pub persist : Event V → List Row → List Row × Bool
  unfolding row_of insert_row
  persist e rows = if has_id e.id rows then (rows, false) else (insert_row (row_of e) rows, true)

  -- enrichEvent
  unfoldable pub enrich_event : Event V → String → ℕ → Event V
  enrich_event e new_id now = record e {
    id = if str_eq e.id "" then new_id else e.id;
    timestamp =
        if e.timestamp.instant == 0 then record { instant = now; zone = 0 } else e.timestamp;
  }

  -- The table and the last hash after a complete event that names the entry before it is given its hash
  -- and persisted, with the event that the log gets.
  unfoldable pub sign_hashed :
      Store V → Event V → Result HashError String → List Row × String × Event V
  unfolding persist
  sign_hashed s linked (err x) = ((persist linked s.rows).0, s.last_entry_hash, linked)
  sign_hashed s linked (ok h) =
      let signed = record linked { entry_hash = h } in
      let (rows, inserted) = persist signed s.rows in
      (rows, if inserted then h else s.last_entry_hash, signed)

  unfoldable pub sign_event : Store V → Event V → List Row × String × Event V
  unfolding sign_hashed
  sign_event s e =
      let prev = prev_or_genesis s.last_entry_hash in
      let linked = record e { prev_hash = prev } in
      sign_hashed s linked (compute_entry_hash go prev linked s.chain_key)

  -- Store.Record
  unfoldable pub record_event : Store V → Event V → String → ℕ → Store V
  unfolding enrich_event sign_event record_in_memory persist
  record_event s event new_id now =
      let e = enrich_event event new_id now in
      if s.chain_mode
      then (let (rows, last, signed) = sign_event s e in
          record s {
            rows = rows;
            last_entry_hash = last;
            log = record_in_memory s.memory_limit s.log signed;
          })
      else record s { rows = (persist e s.rows).0; log = record_in_memory s.memory_limit s.log e }

  -- VerifyChain's loop: whether a signed row was met, the hash that the next row must name, and the
  -- number of entries checked.
  unfoldable pub verify_rows : String → Bool → String → ℕ → List Row → Result HashError VerifyResult
  unfolding event_of
  verify_rows key started expected n [] =
      ok (record { valid = true; entries_checked = n; first_invalid_at = none })
  verify_rows key started expected n (r ∷ rs) =
      let passed = verify_rows key started expected n rs in
      if not (has_chain_data r)
      then if started then broken_at n r else passed
      else if str_eq r.prev_hash "" || str_eq r.entry_hash ""
      then broken_at n r
      else if not (str_eq r.prev_hash (if started then expected else genesis_hash))
      then broken_at n r
      else elim (compute_entry_hash go r.prev_hash (event_of r) key) [
        | err e ↦ err e
        | ok h ↦
            let rest = verify_rows key true r.entry_hash (suc n) rs in
            if not (str_eq r.entry_hash h) then broken_at (suc n) r else rest
      ]

  -- VerifyChain
  unfoldable pub verify_chain : Store V → Result HashError VerifyResult
  unfolding verify_rows
  verify_chain s =
      if s.chain_mode
      then verify_rows s.chain_key false genesis_hash 0 s.rows
      else ok (record { valid = true; entries_checked = 0; first_invalid_at = none })

  -- loadRecent, oldest first, at rows whose ids and times are set.
  unfoldable load_from : ℕ → List (Event V) → List Row → List (Event V)
  unfolding record_in_memory event_of
  load_from limit log [] = log
  load_from limit log (r ∷ rs) = load_from limit (record_in_memory limit log (event_of r)) rs

  unfoldable load_recent : ℕ → List Row → List (Event V)
  unfolding load_from
  load_recent limit rows =
      load_from limit [] (if ltb 0 limit then drop_oldest (length rows - limit) rows else rows)

  -- Purge, at the text of its cutoff.
  unfoldable pub purge : Store V → String → Store V
  unfolding latest_persisted_entry_hash load_recent
  purge s cutoff =
      let kept = keep (λ r. not (go.text_before r.timestamp cutoff)) s.rows in
      if some_of (λ r. go.text_before r.timestamp cutoff) s.rows
      then record s {
        rows = kept;
        log = load_recent s.memory_limit kept;
        last_entry_hash =
            if s.chain_mode then latest_persisted_entry_hash kept else s.last_entry_hash;
      }
      else s
