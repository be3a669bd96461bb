-- ===== src/Audit/ReadBack.antt =====
-- internal/controlplane/audit/store.go and chain.go: the text of an event that is read back from its row.
use legator.Common.{
  ℕ, String, false, Option, some, ◌≡◌, ◌⊎◌, inl, inr, refl, sym, str_eq, if◌then◌else◌, ◌==◌,
}
use legator.Common.Text.{trim_space, trim_space_idem}
use legator.Audit.Event.{Event, Platform, Time, canonical_entry_payload}
use legator.Audit.Store.{text_of, value_of, row_of, event_of}

module _ {V : Type 0} (go : Platform V) where
  -- A value that json.Unmarshal makes again of its text, or nil, whose text is null.
  abbrev pub IsJson : V → Type 0
  IsJson v =
      ((v ≡ go.nil) × (go.marshal_value v ≡ some "null"))
      ⊎ ((s : String) × (go.marshal_value v ≡ some s)
          × (str_eq s "" ≡ false)
          × (str_eq s "null" ≡ false)
          × (go.unmarshal_value s ≡ some v))

  -- A time that time.Parse makes again of its text, up to its location.
  abbrev pub IsParsed : Time → Type 0
  IsParsed t = (go.parse_time (go.format_time t)).instant ≡ t.instant

  pub record IsReadable (e : Event V) : Type 0 where
    pub time : IsParsed e.timestamp
    pub detail : IsJson e.detail
    pub before : IsJson e.before
    pub after : IsJson e.after

  value_of-text_of : (v : V) → IsJson v → value_of go (text_of (go.marshal_value v)) ≡ v
  value_of-text_of v (inl (empty, text)) = rw text (sym empty)
  value_of-text_of v (inr (s, text, full, set, back)) = rw (text, full, set, back) refl

  -- The text of an event with another workspace, trimmed, another instant and other values.
  abbrev text_with : Event V → String → ℕ → V → V → V → Option String
  text_with e workspace_id instant detail before after = go.marshal_entry (record {
    id = trim_space e.id;
    timestamp =
        if instant == 0 then "" else go.format_time (record { instant = instant; zone = 0 });
    kind = e.kind;
    probe_id = trim_space e.probe_id;
    workspace_id = workspace_id;
    actor = trim_space e.actor;
    summary = e.summary;
    detail = detail;
    before = before;
    after = after;
  })

  same_text :
      (e : Event V) {w w' : String} {i i' : ℕ} {d d' b b' a a' : V}
      → w ≡ w'
      → i ≡ i'
      → d ≡ d'
      → b ≡ b'
      → a ≡ a'
      → text_with e w i d b a ≡ text_with e w' i' d' b' a'
  same_text e same_w same_i same_d same_b same_a = rw (same_w, same_i, same_d, same_b, same_a) refl

  -- The text that is hashed is the same for the event that is read back from its row.
  pub canonical-event_of :
      (e : Event V)
      → IsReadable e
      → canonical_entry_payload go (event_of go (row_of go e)) ≡ canonical_entry_payload go e
  unfolding canonical_entry_payload event_of row_of
  canonical-event_of e h =
      same_text e (trim_space_idem e.workspace_id) h.time (value_of-text_of e.detail h.detail)
        (value_of-text_of e.before h.before) (value_of-text_of e.after h.after)
