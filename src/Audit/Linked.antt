-- ===== src/Audit/Linked.antt =====
-- internal/controlplane/audit/store.go: what VerifyChain accepts, as a chain described without its loop.
use legator.Common.{
  ℕ, suc, ◌+◌, String, Bool, true, false, not, ◌||◌, none, List, [], ◌∷◌, ◌≡◌, ◌≢◌, ◌⊎◌, inl, inr,
  refl, sym, ap, ◌∙◌, arith, str_eq, eq_iff, eq_refl, length, if◌then◌else◌, Result, ok, err,
  Bool-cases, Result-cases,
}
use legator.Audit.Event.{Platform, HashError, genesis_hash, compute_entry_hash}
use legator.Audit.Store.{Row, VerifyResult, has_chain_data, broken_at, event_of, verify_rows}

true-ne-false : true ≢ false
true-ne-false h = cc

or_false : (a b : Bool) → (a || b) ≡ false → (a ≡ false) × (b ≡ false)
or_false a b h = (ground arith, ground arith)

unsigned : (a b : Bool) → a ≡ false → b ≡ false → (not a || not b) ≡ true
unsigned a b h k = ground arith

-- The answer on n entries that are in order.
abbrev pub intact : ℕ → Result HashError VerifyResult
intact n = ok (record { valid = true; entries_checked = n; first_invalid_at = none })

-- A result that says the chain is valid.
abbrev pub IsVerified : Result HashError VerifyResult → Type 0
IsVerified (err e) = ⊥
IsVerified (ok v) = v.valid ≡ true

broken-refuted : (n : ℕ) (r : Row) → IsVerified (broken_at n r) → ⊥
broken-refuted n r h = cc

module _ {V : Type 0} (go : Platform V) (key : String) where
  -- A row that names the hash of the row before it, and has its own hash.
  abbrev pub IsNext : String → Row → Type 0
  IsNext prev r =
      (r.prev_hash ≡ prev)
      × (str_eq r.prev_hash "" ≡ false)
      × (str_eq r.entry_hash "" ≡ false)
      × (compute_entry_hash go r.prev_hash (event_of go r) key ≡ ok r.entry_hash)

  abbrev pub IsLinked : String → List Row → Type 0
  IsLinked prev [] = Unit
  IsLinked prev (r ∷ rs) = IsNext prev r × IsLinked r.entry_hash rs

  -- Rows without hashes, then a linked chain from the first hash of all.
  abbrev pub IsSigned : List Row → Type 0
  IsSigned [] = Unit
  IsSigned (r ∷ rs) = ((has_chain_data r ≡ false) × IsSigned rs) ⊎ IsLinked genesis_hash (r ∷ rs)

  -- What one turn of the loop has checked.
  pub checked :
      (started : Bool) (prev : String) (n : ℕ) (r : Row) (rs : List Row)
      → IsVerified (verify_rows go key started prev n (r ∷ rs))
      → ((has_chain_data r ≡ false)
          × (started ≡ false)
          × IsVerified (verify_rows go key started prev n rs))
        ⊎ (IsNext (if started then prev else genesis_hash) r
            × IsVerified (verify_rows go key true r.entry_hash (suc n) rs))
  unfolding verify_rows
  checked started prev n r rs = elim (Bool-cases (has_chain_data r)) [
    | inr bare ↦ rw bare (elim (Bool-cases started) [
      | inl late ↦ rw late (λ h. absurd (broken-refuted n r h))
      | inr early ↦ rw early (λ h. inl (refl, refl, h))
    ])
    | inl signed ↦ elim (Bool-cases (str_eq r.prev_hash "" || str_eq r.entry_hash "")) [
      | inl half ↦ rw (signed, half) (λ h. absurd (broken-refuted n r h))
      | inr whole ↦
          elim (Bool-cases (str_eq r.prev_hash (if started then prev else genesis_hash))) [
            | inr apart ↦ rw (signed, whole, apart) (λ h. absurd (broken-refuted n r h))
            | inl follows ↦
                elim (Result-cases (compute_entry_hash go r.prev_hash (event_of go r) key)) [
                  | inr (e, bad) ↦ rw (signed, whole, follows, bad) (λ h. absurd h)
                  | inl (x, hash) ↦ elim (Bool-cases (str_eq r.entry_hash x)) [
                    | inr forged ↦
                        rw (signed, whole, follows, hash, forged)
                          (λ h. absurd (broken-refuted (suc n) r h))
                    | inl own ↦
                        rw (signed, whole, follows, hash, own)
                          (λ h. inr (
                            (
                              (eq_iff _ _).0 follows,
                              (or_false _ _ whole).0,
                              (or_false _ _ whole).1,
                              ap ok (sym ((eq_iff _ _).0 own)),
                            ),
                            h,
                          ))
                  ]
                ]
          ]
    ]
  ]

  verified-IsLinked :
      (prev : String) (n : ℕ) (rows : List Row)
      → IsVerified (verify_rows go key true prev n rows)
      → IsLinked prev rows
  verified-IsLinked prev n [] h = tt
  verified-IsLinked prev n (r ∷ rs) h = elim (checked true prev n r rs h) [
    | inl (bare, late, rest) ↦ absurd (true-ne-false late)
    | inr (next, rest) ↦ (next, verified-IsLinked r.entry_hash (suc n) rs rest)
  ]

  pub verified-IsSigned :
      (n : ℕ) (rows : List Row)
      → IsVerified (verify_rows go key false genesis_hash n rows)
      → IsSigned rows
  verified-IsSigned n [] h = tt
  verified-IsSigned n (r ∷ rs) h = elim (checked false genesis_hash n r rs h) [
    | inl (bare, early, rest) ↦ inl (bare, verified-IsSigned n rs rest)
    | inr (next, rest) ↦ inr (next, verified-IsLinked r.entry_hash (suc n) rs rest)
  ]

  -- One turn of the loop on a row that comes next.
  verify_next :
      (started : Bool) (prev : String) (n : ℕ) (r : Row) (rs : List Row)
      → IsNext (if started then prev else genesis_hash) r
      → verify_rows go key started prev n (r ∷ rs) ≡ verify_rows go key true r.entry_hash (suc n) rs
  unfolding verify_rows
  verify_next started prev n r rs (follows, linked, hashed, hash) =
      rw (linked, hashed, (eq_iff _ _).1 follows, hash, eq_refl r.entry_hash) refl

  pub linked-verifies :
      (prev : String) (n : ℕ) (rows : List Row)
      → IsLinked prev rows
      → verify_rows go key true prev n rows ≡ intact (n + length rows)
  unfolding verify_rows
  linked-verifies prev n [] h = ap intact (omega arith)
  linked-verifies prev n (r ∷ rs) (next, rest) =
      verify_next true prev n r rs next
      ∙ linked-verifies r.entry_hash (suc n) rs rest
      ∙ ap intact (omega arith)

  pub chain-verifies :
      (rows : List Row)
      → IsLinked genesis_hash rows
      → verify_rows go key false genesis_hash 0 rows ≡ intact (length rows)
  unfolding verify_rows
  chain-verifies [] h = refl
  chain-verifies (r ∷ rs) (next, rest) =
      verify_next false genesis_hash 0 r rs next
      ∙ linked-verifies r.entry_hash 1 rs rest
      ∙ ap intact (omega arith)
