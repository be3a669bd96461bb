-- ===== src/Audit/Tests.antt =====
-- internal/controlplane/audit: three events of one day, and the purge of the oldest.
use Prim.Native.String as Str
use Prim.Native.Nat.{lt, eq, gt}
use legator.Common.{
  ℕ, zero, suc, String, Bool, true, false, some, List, [], ◌∷◌, ◌≡◌, ◌≢◌, inl, inr, refl, str_eq,
  Bool-cases, eq_iff, length, if◌then◌else◌,
}
use legator.Common.Text.{trim_space, join_space}
use legator.Audit.Event.{
  Event, Time, Platform, genesis_hash, canonical_entry_payload, compute_entry_hash,
}
use legator.Audit.Store.{
  Store, row_of, event_of, insert_row, persist, enrich_event, sign_hashed, sign_event, record_event,
  verify_rows, verify_chain, purge,
}
use legator.Audit.ReadBack.{IsParsed, IsReadable}
use legator.Audit.Linked.{IsSigned, IsVerified, intact}
use legator.Audit.Chained.{
  IsChain, AreFit, record_all, record_all-IsChain, record_all-verifies, verify_chain-IsSigned,
}
use legator.Audit.Purged.{purged_chain_refused}

abbrev clock_text : ℕ → ℕ → String
clock_text zero zone = "2026-01-01T00:00:00Z"
clock_text (suc zero) zone = "2026-01-01T01:00:00Z"
clock_text (suc (suc zero)) zero = "2026-01-01T02:00:00Z"
clock_text (suc (suc zero)) (suc zone) = "2026-01-01T03:00:00+01:00"
clock_text _ zone = "2026-01-01T03:00:00Z"

abbrev format_time : Time → String
format_time t = clock_text t.instant t.zone

abbrev parse_time : String → Time
parse_time s =
    if str_eq s "2026-01-01T00:00:00Z"
    then record { instant = 0; zone = 0 }
    else if str_eq s "2026-01-01T01:00:00Z"
    then record { instant = 1; zone = 0 }
    else if str_eq s "2026-01-01T02:00:00Z"
    then record { instant = 2; zone = 0 }
    else if str_eq s "2026-01-01T03:00:00+01:00"
    then record { instant = 2; zone = 60 }
    else record { instant = 3; zone = 0 }

abbrev mac : String → String → String
mac key x = if str_eq x "" then key else x

mac-full : (x : String) → str_eq (mac "k" x) "" ≡ false
mac-full x = elim (Bool-cases (str_eq x "")) [ inl e ↦ rw e refl | inr e ↦ rw e e ]

abbrev go : Platform String
go = record {
  nil = "";
  marshal_value = λ v. some (if str_eq v "" then "null" else v);
  unmarshal_value = λ s. some s;
  marshal_entry = λ p. some (
      join_space (
        p.id ∷ p.timestamp ∷ p.kind ∷ p.probe_id ∷ p.workspace_id ∷ p.actor ∷ p.summary ∷ p.detail
        ∷ p.before ∷ p.after ∷ []));
  format_time = format_time;
  parse_time = parse_time;
  mac = mac;
  text_before = λ a b. elim (Str.compare a b) [ lt ↦ true | eq ↦ false | gt ↦ false ];
}

abbrev event : String → Time → String → Event String
event id time summary = record {
  id = id;
  timestamp = time;
  kind = "command.sent";
  probe_id = "web-01";
  actor = "alice";
  summary = summary;
  workspace_id = " ops ";
  detail = "uptime";
  before = "";
  after = "";
  prev_hash = "";
  entry_hash = "";
}

abbrev empty_store : Store String
empty_store = record {
  rows = [];
  log = [];
  memory_limit = 2;
  chain_mode = true;
  chain_key = "k";
  last_entry_hash = "";
}

abbrev events : List (Event String × String × ℕ)
events =
    (event "a" (record { instant = 1; zone = 0 }) "uptime", "u1", 9)
    ∷ (event "" (record { instant = 2; zone = 60 }) "df", "b", 9)
    ∷ (event "c" (record { instant = 0; zone = 0 }) "reboot", "u3", 3)
    ∷ []

abbrev full : Store String
full = record_all go empty_store events

empty_store-IsChain : IsChain go "k" empty_store
empty_store-IsChain = record { mode = refl; same_key = refl; linked = tt; head = refl }

-- The details of each event are a text, and there is nothing before and after.
readable : (id summary : String) (t : Time) → IsParsed go t → IsReadable go (event id t summary)
readable id summary t h = record {
  time = h;
  detail = inr ("uptime", refl, refl, refl, refl);
  before = inl (refl, refl);
  after = inl (refl, refl);
}

events-AreFit : AreFit go empty_store events
unfolding record_event row_of event_of insert_row persist enrich_event sign_hashed sign_event
    canonical_entry_payload compute_entry_hash trim_space join_space
events-AreFit = (
  (tt, (_, refl), readable "a" "uptime" (record { instant = 1; zone = 0 }) refl),
  (
    ((refl, tt), (_, refl), readable "b" "df" (record { instant = 2; zone = 60 }) refl),
    (
      (
        (refl, (refl, tt)),
        (_, refl),
        readable "c" "reboot" (record { instant = 3; zone = 0 }) refl,
      ),
      tt,
    ),
  ),
)

record_all-verifies_example : verify_chain go full ≡ intact (length full.rows)
record_all-verifies_example =
    record_all-verifies go "k" refl mac-full empty_store events events-AreFit empty_store-IsChain

three_rows : length full.rows ≡ 3
unfolding record_all record_event row_of insert_row persist enrich_event sign_hashed sign_event
    compute_entry_hash
three_rows = refl

verify_chain-IsSigned_example : IsSigned go "k" full.rows
unfolding record_all record_event row_of event_of insert_row persist enrich_event sign_hashed
    sign_event canonical_entry_payload compute_entry_hash trim_space join_space verify_chain
    verify_rows
verify_chain-IsSigned_example = verify_chain-IsSigned go full refl refl

not_both : (b : Bool) → b ≡ true → b ≢ false
not_both b h k = cc

not_genesis : (h : String) → str_eq h genesis_hash ≡ false → h ≢ genesis_hash
not_genesis h apart e = not_both (str_eq h genesis_hash) ((eq_iff _ _).1 e) apart

purged_chain_refused_example : ¬ IsVerified (verify_chain go (purge go full "2026-01-01T01:30:00Z"))
unfolding record_all record_event row_of event_of insert_row persist enrich_event sign_hashed
    sign_event canonical_entry_payload compute_entry_hash trim_space join_space
purged_chain_refused_example =
    purged_chain_refused go full "2026-01-01T01:30:00Z" _ _ refl refl
      (record_all-IsChain go "k" refl mac-full empty_store events events-AreFit
        empty_store-IsChain).linked
      (not_genesis _ refl, (not_genesis _ refl, (not_genesis _ refl, tt))) refl refl
