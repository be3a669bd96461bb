-- ===== src/TokenBroker/Memory.antt =====
-- internal/controlplane/tokenbroker/store.go: a token table kept as a map, whose statements never
-- fail. It shows that the interface can be met, and serves the tests.
use legator.Common.{
  ℕ, String, Bool, ◌≡◌, Option, none, some, str_eq, eq_iff, arith, if◌then◌else◌, Result, ok, err,
  inl, inr, Option-cases,
}
use legator.Common.Map.{Map, lookup, insert, lookup-insert}
use legator.TokenBroker.Store.{
  TokenState, TokenTable, SqlError, unique, consume_at, is_unconsumed, consume_row,
}

abbrev pub Rows : Type 0
Rows = Map TokenState

unfoldable pub insert_into : Rows → TokenState → Result SqlError Rows
insert_into t s = elim (lookup s.token t) [ none ↦ ok (insert s.token s t) | some x ↦ err unique ]

unfoldable pub update_at : Rows → String → ℕ → Rows
update_at t k at = elim (lookup k t) [ none ↦ t | some s ↦ insert k (consume_row at s) t ]

pub insert_into-new :
    (t : Rows) (s : TokenState) (u : Rows) → insert_into t s ≡ ok u → lookup s.token t ≡ none
unfolding insert_into
insert_into-new t s u h = ground arith

pub lookup-insert_into :
    (t : Rows) (s : TokenState) (u : Rows) (k : String)
    → insert_into t s ≡ ok u
    → lookup k u ≡ (if str_eq s.token k then some s else lookup k t)
unfolding insert_into
lookup-insert_into t s u k h = ground (arith, lookup-insert s.token k s t)

pub lookup-update_at :
    (t : Rows) (j : String) (at : ℕ) (k : String)
    → lookup k (update_at t j at) ≡ (if str_eq j k then consume_at at (lookup k t) else lookup k t)
unfolding update_at
lookup-update_at t j at k = elim (Option-cases (lookup j t)) [
  | inl e ↦ ground (arith, e, eq_iff j k)
  | inr (s, e) ↦ ground (arith, e, eq_iff j k, lookup-insert j k (consume_row at s) t)
]

abbrev pub select_in : Rows → String → Result SqlError (Option TokenState)
select_in t k = ok (lookup k t)

abbrev pub update_in : Rows → String → ℕ → Result SqlError (Rows × Bool)
update_in t k at = ok (update_at t k at, is_unconsumed (lookup k t))

pub selected :
    (t : Rows) (k : String) (o : Option TokenState) → select_in t k ≡ ok o → o ≡ lookup k t
selected t k o h = ground arith

pub updated :
    (t : Rows) (j : String) (at : ℕ) (u : Rows) (n : Bool) (k : String)
    → update_in t j at ≡ ok (u, n)
    → lookup k u ≡ (if str_eq j k then consume_at at (lookup k t) else lookup k t)
updated t j at u n k h = ground (arith, lookup-update_at t j at k)

pub counted :
    (t : Rows) (j : String) (at : ℕ) (u : Rows) (n : Bool)
    → update_in t j at ≡ ok (u, n)
    → n ≡ is_unconsumed (lookup j t)
counted t j at u n h = ground arith

abbrev pub memory : TokenTable
memory = record {
  Table = Rows;
  row = λ t k. lookup k t;
  insert_row = insert_into;
  select_row = select_in;
  update_row = update_in;
  insert_new = insert_into-new;
  row-insert = lookup-insert_into;
  select_is_row = selected;
  row-update = updated;
  update_counts = counted;
}
