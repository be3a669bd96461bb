-- ===== src/TokenBroker/Scopes.antt =====
-- internal/controlplane/tokenbroker/broker.go: the scopes that a token is issued with.
use legator.Common.{
  String, true, false, ◌≡◌, ◌≢◌, ◌↔◌, ◌∙◌, refl, sym, ap, subst, inl, inr, if◌then◌else◌, List, [],
  ◌∷◌, arith, All, Bool-cases, str_eq, eq_iff, eq_refl,
}
use legator.Common.Text.{trim_space, trim_space_idem, ne_of_str_eq}
use legator.TokenBroker.Model.{is_seen, normalize_from, normalize_scopes, has_scope}

false-ne-true : false ≢ true
false-ne-true h = cc

-- A scope as it is kept: trimmed, and not empty.
abbrev pub IsNormal : String → Type 0
IsNormal s = (trim_space s ≡ s) × (s ≢ "")

-- No scope stands twice.
abbrev pub AreDistinct : List String → Type 0
AreDistinct [] = Unit {0}
AreDistinct (s ∷ r) = (is_seen s r ≡ false) × AreDistinct r

-- What the loop has kept of the raw scopes, given those it had kept before.
record IsKept (seen raw out : List String) : Type 0 where
  normal : All IsNormal out
  new : All (λ s. is_seen s seen ≡ false) out
  distinct : AreDistinct out
  asked : All (λ s. has_scope raw s ≡ true) out

asked-cons :
    (r : String) (raw out : List String)
    → All (λ s. has_scope raw s ≡ true) out
    → All (λ s. has_scope (r ∷ raw) s ≡ true) out
unfolding has_scope
asked-cons r raw [] h = tt
asked-cons r raw (s ∷ out) h = (ground (arith, h.0), asked-cons r raw out h.1)

asked_self : (r : String) (raw : List String) → has_scope (r ∷ raw) (trim_space r) ≡ true
unfolding has_scope
asked_self r raw = rw (trim_space_idem r, eq_refl (trim_space r))

new_of_cons :
    (s : String) (seen out : List String)
    → All (λ x. is_seen x (s ∷ seen) ≡ false) out
    → (is_seen s out ≡ false) × All (λ x. is_seen x seen ≡ false) out
unfolding is_seen
new_of_cons s seen [] h = (refl, tt)
new_of_cons s seen (x ∷ out) h =
    let (a, b) = new_of_cons s seen out h.1 in
    (ground (arith, h.0, eq_iff s x, eq_iff x s, a), (ground (arith, h.0), b))

normalize_from-IsKept : (seen raw : List String) → IsKept seen raw (normalize_from seen raw)
unfolding normalize_from
normalize_from-IsKept seen [] = record { normal = tt; new = tt; distinct = tt; asked = tt }
normalize_from-IsKept seen (r ∷ raw) =
    let skip = normalize_from-IsKept seen raw in
    let s = trim_space r in
    let skipped : IsKept seen (r ∷ raw) (normalize_from seen raw) = record {
      normal = skip.normal;
      new = skip.new;
      distinct = skip.distinct;
      asked = asked-cons r raw _ skip.asked;
    } in
    elim (Bool-cases (str_eq s "")) [
      | inl blank ↦ rw blank skipped
      | inr named ↦ elim (Bool-cases (is_seen s seen)) [
        | inl old ↦ rw (named, old) skipped
        | inr new ↦
            let add = normalize_from-IsKept (s ∷ seen) raw in
            let (unlike, fresh) = new_of_cons s seen _ add.new in
            rw (named, new)
              (record {
                normal = ((trim_space_idem r, ne_of_str_eq _ _ named), add.normal);
                new = (new, fresh);
                distinct = (unlike, add.distinct);
                asked = (asked_self r raw, asked-cons r raw _ add.asked);
              })
      ]
    ]

All-is_seen :
    (P : String → Type 0) (s : String) (out : List String) → All P out → is_seen s out ≡ true → P s
unfolding is_seen
All-is_seen P s [] h seen = absurd (false-ne-true seen)
All-is_seen P s (x ∷ out) h seen = elim (Bool-cases (str_eq x s)) [
  | inl e ↦ subst P ((eq_iff x s).0 e) h.0
  | inr e ↦ All-is_seen P s out h.1 (ap (λ b. if b then true else is_seen s out) (sym e) ∙ seen)
]

not_blank : (s : String) → s ≢ "" → str_eq s "" ≡ false
not_blank s h = ground (arith, h, eq_iff s "")

asked_later :
    (r : String) (raw : List String) (s : String)
    → trim_space s ≡ s
    → str_eq (trim_space r) s ≡ false
    → has_scope (r ∷ raw) s ≡ true
    → has_scope raw s ≡ true
unfolding has_scope
asked_later r raw s same other asked =
    ap (λ b. if b then true else has_scope raw s) (sym (ap (str_eq (trim_space r)) same ∙ other))
    ∙ asked

-- A scope that is asked for, and was not kept before, is kept.
normalize_from-keeps :
    (seen raw : List String) (s : String)
    → IsNormal s
    → is_seen s seen ≡ false
    → has_scope raw s ≡ true
    → is_seen s (normalize_from seen raw) ≡ true
unfolding normalize_from has_scope is_seen
normalize_from-keeps seen [] s normal new asked = absurd (false-ne-true asked)
normalize_from-keeps seen (r ∷ raw) s normal new asked =
    let t = trim_space r in
    elim (Bool-cases (str_eq t s)) [
      | inl e ↦ rw ((eq_iff t s).0 e, not_blank s normal.1, new, eq_refl s) refl
      | inr e ↦
          let asked' : has_scope raw s ≡ true = asked_later r raw s normal.0 e asked in
          let skip = normalize_from-keeps seen raw s normal new asked' in
          let add = normalize_from-keeps (t ∷ seen) raw s normal (rw e new) asked' in
          elim (Bool-cases (str_eq t "")) [
            | inl blank ↦ rw blank skip
            | inr named ↦ elim (Bool-cases (is_seen t seen)) [
              | inl old ↦ rw (named, old) skip
              | inr fresh ↦ rw (named, fresh, e) add
            ]
          ]
    ]

-- normalizeScopes returns each scope once, and exactly the scopes that are trimmed, not empty and
-- among those that were given, up to surrounding space.
pub normalize_scopes_lem :
    (raw : List String) (s : String)
    → AreDistinct (normalize_scopes raw)
      × ((is_seen s (normalize_scopes raw) ≡ true) ↔ (IsNormal s × (has_scope raw s ≡ true)))
unfolding normalize_scopes
normalize_scopes_lem raw s =
    let k = normalize_from-IsKept [] raw in
    (
      k.distinct,
      (
        λ h. (
          All-is_seen IsNormal s _ k.normal h,
          All-is_seen (λ x. has_scope raw x ≡ true) s _ k.asked h,
        ),
        λ h. normalize_from-keeps [] raw s h.0 refl h.1,
      ),
    )
