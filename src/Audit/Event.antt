-- ===== src/Audit/Event.antt =====
-- internal/controlplane/audit/audit.go and chain.go: an event, the log in memory, and the hash of an
-- entry.
use Prim.Native.String as Str
use legator.Common.{
  ℕ, zero, suc, ◌-◌, String, Bool, ◌&&◌, Option, none, some, List, [], ◌∷◌, ◌++◌, length, str_eq,
  ltb, ◌==◌, if◌then◌else◌, Result, ok, err,
}
use legator.Common.Text.{trim_space}

-- GenesisHash
abbrev pub genesis_hash : String
genesis_hash = "0000000000000000000000000000000000000000000000000000000000000000"

-- A time.Time: an instant, of which 0 is not set, and the offset of its location, 0 for UTC.
pub record Time : Type 0 where
  pub instant : ℕ
  pub zone : ℕ

-- Time.UTC
abbrev pub utc : Time → Time
utc t = record { instant = t.instant; zone = 0 }

-- An event whose details are values of V.
pub record Event (V : Type 0) : Type 0 where
  pub id : String
  pub timestamp : Time
  pub kind : String
  pub probe_id : String
  pub actor : String
  pub summary : String
  pub workspace_id : String
  pub detail : V
  pub before : V
  pub after : V
  pub prev_hash : String
  pub entry_hash : String

-- entryPayload
pub record EntryPayload (V : Type 0) : Type 0 where
  pub id : String
  pub timestamp : String
  pub kind : String
  pub probe_id : String
  pub workspace_id : String
  pub actor : String
  pub summary : String
  pub detail : V
  pub before : V
  pub after : V

-- What the log uses of Go's packages json, time and hmac, and of the database: values as texts and
-- back, entries as texts, times as texts and back, the hash of a text under a key in hex, and the
-- order of texts.
pub record Platform (V : Type 0) : Type 0 where
  pub nil : V
  pub marshal_value : V → Option String
  pub unmarshal_value : String → Option V
  pub marshal_entry : EntryPayload V → Option String
  pub format_time : Time → String
  pub parse_time : String → Time
  pub mac : String → String → String
  pub text_before : String → String → Bool

pub data HashError : Type 0 where
  chain_key_required marshal_failed : HashError

module _ {V : Type 0} (go : Platform V) where
  -- canonicalEntryPayload
  unfoldable pub canonical_entry_payload : Event V → Option String
  canonical_entry_payload e = go.marshal_entry (record {
    id = trim_space e.id;
    timestamp = if e.timestamp.instant == 0 then "" else go.format_time (utc e.timestamp);
    kind = e.kind;
    probe_id = trim_space e.probe_id;
    workspace_id = trim_space e.workspace_id;
    actor = trim_space e.actor;
    summary = e.summary;
    detail = e.detail;
    before = e.before;
    after = e.after;
  })

  -- normalizePrevHash
  abbrev normalize_prev_hash : String → String
  normalize_prev_hash prev_hash =
      let h = trim_space prev_hash in if str_eq h "" then genesis_hash else h

  -- The hash of a payload after another entry.
  abbrev pub entry_mac : String → String → String → String
  entry_mac prev_hash key payload =
      go.mac key (Str.◌++◌ (normalize_prev_hash prev_hash) (Str.◌++◌ "\n" payload))

  abbrev pub hash_payload : String → String → Option String → Result HashError String
  hash_payload prev_hash key none = err marshal_failed
  hash_payload prev_hash key (some payload) = ok (entry_mac prev_hash key payload)

  -- ComputeEntryHash
  unfoldable pub compute_entry_hash : String → Event V → String → Result HashError String
  unfolding canonical_entry_payload
  compute_entry_hash prev_hash e key =
      if str_eq key ""
      then err chain_key_required
      else hash_payload prev_hash key (canonical_entry_payload e)

-- The elements after the first n.
abbrev pub drop_oldest {ℓ} : {A : Type ℓ} → ℕ → List A → List A
drop_oldest n [] = []
drop_oldest zero xs = xs
drop_oldest (suc n) (x ∷ xs) = drop_oldest n xs

-- Log.Record, at an event that is complete, on the events of a log of at most `max_len`, 0 for any number.
unfoldable pub record_in_memory : {V : Type 0} → ℕ → List (Event V) → Event V → List (Event V)
record_in_memory max_len events e =
    let all = events ++ e ∷ [] in
    if ltb 0 max_len && ltb max_len (length all)
    then drop_oldest (length all - max_len) all
    else all
