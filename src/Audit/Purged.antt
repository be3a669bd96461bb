-- ===== src/Audit/Purged.antt =====
-- internal/controlplane/audit/store.go: what Purge does to the chain.
use legator.Common.{
  String, Bool, true, false, not, List, [], ◌∷◌, ◌≡◌, ◌≢◌, inl, inr, refl, sym, ap, ◌∙◌, str_eq,
  All, All-keep, keep, some_of, if◌then◌else◌, Bool-cases,
}
use legator.Audit.Event.{Platform, genesis_hash}
use legator.Audit.Store.{Row, Store, has_chain_data, purge, verify_chain, verify_rows}
use legator.Audit.Linked.{IsLinked, IsVerified, checked}

-- A row that names an entry before it.
abbrev IsLater : Row → Type 0
IsLater r = (r.prev_hash ≢ genesis_hash) × (str_eq r.prev_hash "" ≡ false)

has_chain_data_lem : (r : Row) → str_eq r.prev_hash "" ≡ false → has_chain_data r ≢ false
has_chain_data_lem r h = rw h (λ e. cc)

cons-ne-nil : (r : Row) (rows : List Row) → (r ∷ rows) ≢ []
cons-ne-nil r rows h = cc

keep-nonempty : (p : Row → Bool) (rows : List Row) → some_of p rows ≡ true → keep p rows ≢ []
keep-nonempty p [] h e = cc
keep-nonempty p (r ∷ rows) h e = elim (Bool-cases (p r)) [
  | inl stays ↦
      absurd
        (cons-ne-nil _ _ (ap (λ b. if b then r ∷ keep p rows else keep p rows) (sym stays) ∙ e))
  | inr gone ↦
      keep-nonempty p rows (ap (λ b. if b then true else some_of p rows) (sym gone) ∙ h)
        (ap (λ b. if b then r ∷ keep p rows else keep p rows) (sym gone) ∙ e)
]

module _ {V : Type 0} (go : Platform V) where
  linked-IsLater :
      (key prev : String) (rows : List Row)
      → prev ≢ genesis_hash
      → IsLinked go key prev rows
      → All (λ r. r.entry_hash ≢ genesis_hash) rows
      → All IsLater rows
  linked-IsLater key prev [] h linked hashes = tt
  linked-IsLater key prev (r ∷ rows) h (next, rest) (own, hashes) =
      ((λ e. h (sym next.0 ∙ e), next.1), linked-IsLater key r.entry_hash rows own rest hashes)

  later-refused :
      (key : String) (rows : List Row)
      → rows ≢ []
      → All IsLater rows
      → IsVerified (verify_rows go key false genesis_hash 0 rows)
      → ⊥
  later-refused key [] some_ later h = some_ refl
  later-refused key (r ∷ rows) some_ (later, rest) h =
      elim (checked go key false genesis_hash 0 r rows h) [
        | inl (bare, free, passed) ↦ has_chain_data_lem r later.1 bare
        | inr (next, passed) ↦ later.0 next.0
      ]

  -- In a store in chain mode whose table is one chain of hashes that all differ from the first hash of
  -- all, a purge that deletes the oldest row and keeps some row leaves a table that never verifies as
  -- valid.
  pub purged_chain_refused :
      (s : Store V) (cutoff : String) (r : Row) (rows : List Row)
      → s.chain_mode ≡ true
      → s.rows ≡ r ∷ rows
      → IsLinked go s.chain_key genesis_hash (r ∷ rows)
      → All (λ x. x.entry_hash ≢ genesis_hash) (r ∷ rows)
      → go.text_before r.timestamp cutoff ≡ true
      → some_of (λ x. not (go.text_before x.timestamp cutoff)) rows ≡ true
      → ¬ IsVerified (verify_chain go (purge go s cutoff))
  unfolding purge verify_chain
  purged_chain_refused s cutoff r rows mode table linked hashes old left =
      let stays : Row → Bool = λ x. not (go.text_before x.timestamp cutoff) in
      rw (table, old, mode)
        (later-refused s.chain_key (keep stays rows) (keep-nonempty stays rows left) (
          All-keep IsLater stays rows
            (linked-IsLater s.chain_key r.entry_hash rows hashes.0 linked.1 hashes.1)))
