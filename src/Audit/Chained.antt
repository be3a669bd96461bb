-- ===== src/Audit/Chained.antt =====
-- internal/controlplane/audit/store.go: the chain that Record leaves in the table.
use legator.Common.{
  ℕ, String, true, false, some, List, [], ◌∷◌, ◌++◌, ◌≡◌, inl, inr, refl, sym, ap, ◌∙◌, subst,
  str_eq, length, All, if◌then◌else◌, ok, Bool-cases,
}
use legator.Audit.Event.{
  Event, Platform, genesis_hash, entry_mac, canonical_entry_payload, compute_entry_hash,
}
use legator.Audit.Store.{
  Row, Store, has_id, prev_or_genesis, row_of, event_of, row_before, insert_row, persist,
  enrich_event, sign_event, sign_hashed, record_event, verify_chain,
}
use legator.Audit.ReadBack.{IsReadable, canonical-event_of}
use legator.Audit.Linked.{
  IsNext, IsLinked, IsSigned, IsVerified, intact, verified-IsSigned, chain-verifies,
}

-- The hash that the next row must name.
abbrev pub head_of : String → List Row → String
head_of prev [] = prev
head_of prev (r ∷ rs) = head_of r.entry_hash rs

head_of-append :
    (prev : String) (rows : List Row) (r : Row) → head_of prev (rows ++ r ∷ []) ≡ r.entry_hash
head_of-append prev [] r = refl
head_of-append prev (x ∷ rows) r = head_of-append x.entry_hash rows r

prev_or_genesis-not_blank : (h : String) → str_eq (prev_or_genesis h) "" ≡ false
prev_or_genesis-not_blank h = elim (Bool-cases (str_eq h "")) [ inl e ↦ rw e refl | inr e ↦ rw e e ]

prev_or_genesis_lem : (h : String) → str_eq h "" ≡ false → prev_or_genesis h ≡ h
prev_or_genesis_lem h e = rw e refl

module _ {V : Type 0} (go : Platform V) where
  -- A complete event that sorts after the table, can be encoded, and has a time and values that Go's
  -- packages read back from their texts.
  abbrev pub IsFit : Store V → Event V → Type 0
  IsFit s e =
      All (λ x. row_before go (row_of go e) x ≡ false) s.rows
      × ((payload : String) × (canonical_entry_payload go e ≡ some payload))
      × IsReadable go e

  -- The record of the events in turn, each with the id and the time that it gets if it has none.
  unfoldable pub record_all : Store V → List (Event V × String × ℕ) → Store V
  record_all s [] = s
  record_all s ((e, new_id, now) ∷ es) = record_all (record_event go s e new_id now) es

  abbrev pub AreFit : Store V → List (Event V × String × ℕ) → Type 0
  AreFit s [] = Unit
  AreFit s ((e, new_id, now) ∷ es) =
      IsFit s (enrich_event go e new_id now) × AreFit (record_event go s e new_id now) es

module _ {V : Type 0} (go : Platform V) (key : String) where
  IsLinked-append :
      (prev : String) (rows : List Row) (r : Row)
      → IsLinked go key prev rows
      → IsNext go key (head_of prev rows) r
      → IsLinked go key prev (rows ++ r ∷ [])
  IsLinked-append prev [] r h next = (next, tt)
  IsLinked-append prev (x ∷ rows) r h next = (h.0, IsLinked-append x.entry_hash rows r h.1 next)

  insert_row-last :
      (r : Row) (rows : List Row)
      → All (λ x. row_before go r x ≡ false) rows
      → insert_row go r rows ≡ rows ++ r ∷ []
  unfolding insert_row
  insert_row-last r [] h = refl
  insert_row-last r (x ∷ rows) (late, rest) =
      rw late (ap (λ ys. x ∷ ys) (insert_row-last r rows rest))

  -- A store in chain mode with this key, whose table is one chain that ends at its last hash.
  pub record IsChain (s : Store V) : Type 0 where
    pub mode : s.chain_mode ≡ true
    pub same_key : s.chain_key ≡ key
    pub linked : IsLinked go key genesis_hash s.rows
    pub head : prev_or_genesis s.last_entry_hash ≡ head_of genesis_hash s.rows

  module _ (keyed : str_eq key "" ≡ false)
      (hashes : (x : String) → str_eq (go.mac key x) "" ≡ false) where
    computed :
        (prev : String) (e : Event V) (payload : String)
        → canonical_entry_payload go e ≡ some payload
        → compute_entry_hash go prev e key ≡ ok (entry_mac go prev key payload)
    unfolding compute_entry_hash
    computed prev e payload text = rw (keyed, text) refl

    abbrev signed_as : String → Event V → String → Event V
    signed_as prev e payload = record e {
      prev_hash = prev;
      entry_hash = entry_mac go prev key payload;
    }

    signed-IsNext :
        (prev : String) (e : Event V) (payload : String)
        → str_eq prev "" ≡ false
        → canonical_entry_payload go (event_of go (row_of go e)) ≡ some payload
        → IsNext go key prev (row_of go (signed_as prev e payload))
    unfolding row_of event_of canonical_entry_payload
    signed-IsNext prev e payload full again = (
      refl,
      full,
      hashes _,
      computed prev (event_of go (row_of go (signed_as prev e payload))) payload again,
    )

    sign_event_lem :
        (s : Store V) (e : Event V) (payload : String)
        → s.chain_key ≡ key
        → canonical_entry_payload go e ≡ some payload
        → let prev = prev_or_genesis s.last_entry_hash in
          let signed = signed_as prev e payload in
          sign_event go s e ≡ (
            if has_id e.id s.rows
            then (s.rows, s.last_entry_hash, signed)
            else (insert_row go (row_of go signed) s.rows, signed.entry_hash, signed))
    unfolding sign_event sign_hashed persist canonical_entry_payload
    sign_event_lem s e payload same text =
        let prev = prev_or_genesis s.last_entry_hash in
        let linked = record e { prev_hash = prev } in
        ap (λ k. sign_hashed go s linked (compute_entry_hash go prev linked k)) same
        ∙ ap (sign_hashed go s linked) (computed prev linked payload text)
        ∙ elim (Bool-cases (has_id e.id s.rows)) [
          | inl known ↦ rw known refl
          | inr new ↦ rw new refl
        ]

    -- A table that is one chain, after the row of the next signed event.
    table-grows :
        (s : Store V) (e : Event V) (payload : String)
        → All (λ x. row_before go (row_of go e) x ≡ false) s.rows
        → canonical_entry_payload go (event_of go (row_of go e)) ≡ some payload
        → IsChain s
        → let prev = prev_or_genesis s.last_entry_hash in
          let rows = insert_row go (row_of go (signed_as prev e payload)) s.rows in
          IsLinked go key genesis_hash rows
          × (prev_or_genesis (entry_mac go prev key payload) ≡ head_of genesis_hash rows)
    unfolding row_of
    table-grows s e payload late again c =
        let prev = prev_or_genesis s.last_entry_hash in
        let r = row_of go (signed_as prev e payload) in
        let next =
          subst (λ h. IsNext go key h r) c.head
            (signed-IsNext prev e payload (prev_or_genesis-not_blank s.last_entry_hash) again) in
        let at_end = sym (insert_row-last r s.rows late) in
        (
          subst (IsLinked go key genesis_hash) at_end
              (IsLinked-append genesis_hash s.rows r c.linked next),
          prev_or_genesis_lem _ (hashes _)
              ∙ sym (head_of-append genesis_hash s.rows r)
              ∙ ap (head_of genesis_hash) at_end,
        )

    record_event-IsChain :
        (s : Store V) (event : Event V) (new_id : String) (now : ℕ)
        → IsFit go s (enrich_event go event new_id now)
        → IsChain s
        → IsChain (record_event go s event new_id now)
    unfolding record_event
    record_event-IsChain s event new_id now (late, (payload, text), readable) c =
        let e = enrich_event go event new_id now in
        let again = canonical-event_of go e readable ∙ text in
        let prev = prev_or_genesis s.last_entry_hash in
        let signed = signed_as prev e payload in
        elim (Bool-cases (has_id e.id s.rows)) [
          | inl known ↦
              rw (c.mode, sign_event_lem s e payload c.same_key text, known)
                (record { mode = refl; same_key = c.same_key; linked = c.linked; head = c.head })
          | inr new ↦
              rw (c.mode, sign_event_lem s e payload c.same_key text, new)
                (let grown = table-grows s e payload late again c in
                  record { mode = refl; same_key = c.same_key; linked = grown.0; head = grown.1 })
        ]

    pub record_all-IsChain :
        (s : Store V) (es : List (Event V × String × ℕ))
        → AreFit go s es
        → IsChain s
        → IsChain (record_all go s es)
    unfolding record_all
    record_all-IsChain s [] fit c = c
    record_all-IsChain s ((e, new_id, now) ∷ es) (fit, rest) c =
        record_all-IsChain (record_event go s e new_id now) es rest
          (record_event-IsChain s e new_id now fit c)

    -- Where the key is not empty and no hash is, a table that is one chain under the store's key still
    -- verifies after any number of records, with all of its rows as checked entries, if each recorded
    -- event sorts after the table, can be encoded, and has a time and values that Go's packages read
    -- back from their texts.
    pub record_all-verifies :
        (s : Store V) (es : List (Event V × String × ℕ))
        → AreFit go s es
        → IsChain s
        → let t = record_all go s es in verify_chain go t ≡ intact (length t.rows)
    unfolding verify_chain
    record_all-verifies s es fit c =
        let t = record_all go s es in
        let d = record_all-IsChain s es fit c in
        rw (d.mode, d.same_key) (chain-verifies go key t.rows d.linked)

-- A store in chain mode verifies as valid only a table of rows without hashes and then rows that
-- each name the hash of the row before, from the first hash of all, and have the hash of their own
-- text under the store's key.
pub verify_chain-IsSigned :
    {V : Type 0} (go : Platform V) (s : Store V)
    → s.chain_mode ≡ true
    → IsVerified (verify_chain go s)
    → IsSigned go s.chain_key s.rows
unfolding verify_chain
verify_chain-IsSigned go s mode = rw mode (verified-IsSigned go s.chain_key 0 s.rows)
