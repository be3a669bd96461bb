-- ===== src/Common/Map.antt =====
-- Go's maps with text keys, as association lists. A write replaces the entry of its key, or adds
-- one at the end; the order of the entries stands for an order of iteration.
use text.Mathlib.Text.{◌==◌}
use text.Mathlib.TextEquality.{eq_iff}
use text.Mathlib.TextPositions.{eq_refl}
use legator.Common.Tests.{if◌then◌else◌, Bool-cases}
use legator.Common.Lists.{length, All}
use Prim.Native.Nat.{suc, ◌≤◌}
use Prim.Native.String.{String}
use mathlib.Core.Path.{◌≡◌, refl, ap, subst}
use mathlib.Core.Bool.{Bool}
use mathlib.Core.Logic.{inl, inr}
use mathlib.Core.Option
use mathlib.Core.Option.{Option, none, some, some-injective}
use mathlib.Core.List.{List, [], ◌∷◌}
use native.Mathlib.Omega.{arith}

abbrev pub Map {ℓ} : Type ℓ → Type ℓ
Map V = List (String × V)

module _ {ℓ} {V : Type ℓ} where
  -- `m[k]`, with the flag that tells whether it is there.
  unfoldable pub lookup : String → Map V → Option V
  lookup wanted [] = none
  lookup wanted ((key, value) ∷ entries) =
      let later = lookup wanted entries in if key == wanted then some value else later

  -- `m[k] = v`
  unfoldable pub insert : String → V → Map V → Map V
  insert key value [] = (key, value) ∷ []
  insert key value ((first, old) ∷ entries) =
      let kept = (first, old) ∷ insert key value entries in
      if first == key then (key, value) ∷ entries else kept

  unfoldable pub delete : String → Map V → Map V
  delete k [] = []
  delete k ((j, v) ∷ m) = if j == k then delete k m else (j, v) ∷ delete k m

  -- A loop that updates each value in place.
  unfoldable pub map_values : (V → V) → Map V → Map V
  map_values f [] = []
  map_values f ((j, v) ∷ m) = (j, f v) ∷ map_values f m

  -- A loop that deletes the entries whose value passes a test.
  unfoldable pub delete_where : (V → Bool) → Map V → Map V
  delete_where p [] = []
  delete_where p ((j, v) ∷ m) = if p v then delete_where p m else (j, v) ∷ delete_where p m

  unfoldable pub values : Map V → List V
  values [] = []
  values ((j, v) ∷ m) = v ∷ values m

  -- No two entries have one key.
  abbrev pub Distinct : Map V → Type ℓ
  Distinct [] = Unit
  Distinct ((j, v) ∷ m) = (lookup j m ≡ none) × Distinct m

  -- Every entry has a property of its key and its value.
  abbrev pub Each {κ} : (String → V → Type κ) → Map V → Type κ
  Each P [] = Unit
  Each P ((j, v) ∷ m) = P j v × Each P m

  -- What `delete_where` leaves of a value.
  abbrev pub unless_dropped : (V → Bool) → Option V → Option V
  unless_dropped p none = none
  unless_dropped p (some v) = if p v then none else some v

  pub lookup-insert :
      (written read : String) (value : V) (entries : Map V)
      → lookup read (insert written value entries)
        ≡ (if written == read then some value else lookup read entries)
  unfolding lookup insert
  lookup-insert written read value [] = refl
  lookup-insert written read value ((first, old) ∷ entries) = ground (
    arith,
    lookup-insert written read value entries,
    eq_iff first read,
    eq_iff first written,
    eq_iff written read,
  )

  pub lookup-insert_self : (k : String) (v : V) (m : Map V) → lookup k (insert k v m) ≡ some v
  lookup-insert_self k v m = simp (lookup-insert, eq_refl)

  pub lookup-delete :
      (k j : String) (m : Map V) → lookup j (delete k m) ≡ (if k == j then none else lookup j m)
  unfolding lookup delete
  lookup-delete k j [] = ground arith
  lookup-delete k j ((i, w) ∷ m) =
      ground (arith, eq_iff k j, eq_iff i k, eq_iff i j, lookup-delete k j m)

  pub lookup-map_values :
      (f : V → V) (k : String) (m : Map V) → lookup k (map_values f m) ≡ Option.map f (lookup k m)
  unfolding lookup map_values
  lookup-map_values f k [] = refl
  lookup-map_values f k ((j, v) ∷ m) = ground (arith, lookup-map_values f k m)

  lookup-delete_where-none :
      (p : V → Bool) (k : String) (m : Map V)
      → lookup k m ≡ none
      → lookup k (delete_where p m) ≡ none
  unfolding lookup delete_where
  lookup-delete_where-none p k [] h = refl
  lookup-delete_where-none p k ((j, v) ∷ m) h = ground (arith, lookup-delete_where-none p k m)

  pub lookup-delete_where :
      (p : V → Bool) (k : String) (m : Map V)
      → Distinct m
      → lookup k (delete_where p m) ≡ unless_dropped p (lookup k m)
  unfolding lookup delete_where
  lookup-delete_where p k [] d = refl
  lookup-delete_where p k ((j, v) ∷ m) d =
      ground (arith, eq_iff j k, lookup-delete_where p k m d.1, lookup-delete_where-none p j m d.0)

  pub Distinct-insert : (k : String) (v : V) (m : Map V) → Distinct m → Distinct (insert k v m)
  unfolding lookup insert
  Distinct-insert k v [] d = (refl, tt)
  Distinct-insert k v ((j, w) ∷ m) d =
      ground (arith, eq_iff j k, eq_iff k j, Distinct-insert k v m d.1, lookup-insert k j v m)

  pub Distinct-map_values : (f : V → V) (m : Map V) → Distinct m → Distinct (map_values f m)
  unfolding map_values
  Distinct-map_values f [] d = tt
  Distinct-map_values f ((j, v) ∷ m) d =
      (ground (arith, lookup-map_values f j m, d.0), Distinct-map_values f m d.1)

  pub Distinct-delete_where : (p : V → Bool) (m : Map V) → Distinct m → Distinct (delete_where p m)
  unfolding delete_where
  Distinct-delete_where p [] d = tt
  Distinct-delete_where p ((j, v) ∷ m) d =
      ground (arith, Distinct-delete_where p m d.1, lookup-delete_where-none p j m d.0)

  pub length-insert : (k : String) (v : V) (m : Map V) → length (insert k v m) ≤ suc (length m)
  unfolding insert
  length-insert k v [] = omega arith
  length-insert k v ((j, w) ∷ m) = ground (arith, length-insert k v m)

  -- A write to a key that is there adds no entry.
  pub length-insert_present :
      (k : String) (v w : V) (m : Map V) → lookup k m ≡ some w → length (insert k v m) ≡ length m
  unfolding lookup insert
  length-insert_present k v w [] h = cc
  length-insert_present k v w ((j, u) ∷ m) h = ground (arith, length-insert_present k v w m)

  pub length-map_values : (f : V → V) (m : Map V) → length (map_values f m) ≡ length m
  unfolding map_values
  length-map_values f [] = refl
  length-map_values f ((j, v) ∷ m) = ap suc (length-map_values f m)

  pub length-delete_where : (p : V → Bool) (m : Map V) → length (delete_where p m) ≤ length m
  unfolding delete_where
  length-delete_where p [] = omega arith
  length-delete_where p ((j, v) ∷ m) = ground (arith, length-delete_where p m)

module _ {ℓ κ} {V : Type ℓ} (P : String → V → Type κ) where
  pub Each-lookup : (k : String) (v : V) (m : Map V) → Each P m → lookup k m ≡ some v → P k v
  unfolding lookup
  Each-lookup k v [] e h = cc
  Each-lookup k v ((j, w) ∷ m) e h = elim (Bool-cases (j == k)) [
    | inl p ↦
        subst (λ i. P i v) ((eq_iff j k).0 p) (subst (P j) (some-injective w v (rw p at h)) e.0)
    | inr p ↦ Each-lookup k v m e.1 (rw p at h)
  ]

  pub Each-values :
      (Q : V → Type κ)
      → ((k : String) (v : V) → P k v → Q v)
      → (m : Map V) → Each P m
      → All Q (values m)
  unfolding values
  Each-values Q f [] e = tt
  Each-values Q f ((j, v) ∷ m) e = (f j v e.0, Each-values Q f m e.1)

  pub Each-insert : (k : String) (v : V) (m : Map V) → P k v → Each P m → Each P (insert k v m)
  unfolding insert
  Each-insert k v [] h e = (h, tt)
  Each-insert k v ((j, w) ∷ m) h e = elim (Bool-cases (j == k)) [
    | inl p ↦ rw p (h, e.1)
    | inr p ↦ rw p (e.0, Each-insert k v m h e.1)
  ]

  pub Each-map_values :
      (f : V → V)
      → ((k : String) (v : V) → P k v → P k (f v))
      → (m : Map V) → Each P m
      → Each P (map_values f m)
  unfolding map_values
  Each-map_values f h [] e = tt
  Each-map_values f h ((j, v) ∷ m) e = (h j v e.0, Each-map_values f h m e.1)

  pub Each-delete_where : (p : V → Bool) (m : Map V) → Each P m → Each P (delete_where p m)
  unfolding delete_where
  Each-delete_where p [] e = tt
  Each-delete_where p ((j, v) ∷ m) e = elim (Bool-cases (p v)) [
    | inl h ↦ rw h (Each-delete_where p m e.1)
    | inr h ↦ rw h (e.0, Each-delete_where p m e.1)
  ]

module _ {ℓ} {V : Type ℓ} where
  Each-map {κ μ} :
      (P : String → V → Type κ) (Q : String → V → Type μ)
      → ((k : String) (v : V) → P k v → Q k v)
      → (m : Map V) → Each P m
      → Each Q m
  Each-map P Q f [] e = tt
  Each-map P Q f ((k, v) ∷ m) e = (f k v e.0, Each-map P Q f m e.1)

  lookup_later :
      (k i : String) (v w : V) (m : Map V)
      → lookup k m ≡ none
      → lookup i m ≡ some w
      → lookup i ((k, v) ∷ m) ≡ some w
  unfolding lookup
  lookup_later k i v w m h e = ground (arith, eq_iff k i)

  -- In a map with distinct keys every entry is what its key is bound to.
  pub Each-self : (m : Map V) → Distinct m → Each (λ k v. lookup k m ≡ some v) m
  unfolding lookup
  Each-self [] d = tt
  Each-self ((k, v) ∷ m) d = (
    rw (eq_refl k),
    Each-map (λ i w. lookup i m ≡ some w) (λ i w. lookup i ((k, v) ∷ m) ≡ some w)
        (λ i w e. lookup_later k i v w m d.0 e) m (Each-self m d.1),
  )
