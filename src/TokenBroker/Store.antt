-- ===== src/TokenBroker/Store.antt =====
-- internal/controlplane/tokenbroker/store.go: the token table. The SQL engine is a parameter: an
-- interface `TokenTable` of the three statements that the store executes, with what SQL documents
-- of them. A row holds the columns decoded.
use legator.Common.{
  ℕ, String, Bool, true, false, ◌≡◌, Option, none, some, List, str_eq, if◌then◌else◌, Result, ok,
  err,
}
use legator.Common.Text.{trim_space}

-- TokenState
pub record TokenState : Type 0 where
  pub token : String
  pub scope : List String
  pub audience : String
  pub runner_id : String
  pub job_id : String
  pub issuer : String
  pub session_id : String
  pub issued_at : ℕ
  pub expires_at : ℕ
  pub consumed_at : Option ℕ

-- How a statement fails: by the primary key, or otherwise.
pub data SqlError : Type 0 where
  unique failed : SqlError

-- The row after `SET consumed_at = ? WHERE consumed_at IS NULL`.
abbrev pub consume_row : ℕ → TokenState → TokenState
consume_row at s = elim s.consumed_at [
  | none ↦ record s { consumed_at = some at }
  | some earlier ↦ s
]

abbrev pub is_unconsumed : Option TokenState → Bool
is_unconsumed none = false
is_unconsumed (some s) = elim s.consumed_at [ none ↦ true | some at ↦ false ]

abbrev pub consume_at : ℕ → Option TokenState → Option TokenState
consume_at at none = none
consume_at at (some s) = some (consume_row at s)

-- `row` is the row that a table holds under a token. A statement may fail, and then has changed
-- nothing; otherwise it does what SQL says.
pub record TokenTable : Type 1 where
  pub Table : Type 0
  pub row : Table → String → Option TokenState
  pub insert_row : Table → TokenState → Result SqlError Table
  pub select_row : Table → String → Result SqlError (Option TokenState)
  pub update_row : Table → String → ℕ → Result SqlError (Table × Bool)
  -- INSERT adds a row whose primary key is new.
  pub insert_new :
      (t : Table) (s : TokenState) (u : Table) → insert_row t s ≡ ok u → row t s.token ≡ none
  pub row-insert :
      (t : Table) (s : TokenState) (u : Table) (k : String)
      → insert_row t s ≡ ok u
      → row u k ≡ (if str_eq s.token k then some s else row t k)
  -- SELECT returns the row of a key.
  pub select_is_row :
      (t : Table) (k : String) (o : Option TokenState) → select_row t k ≡ ok o → o ≡ row t k
  -- UPDATE sets consumed_at where it is NULL, and counts the rows that it has changed.
  pub row-update :
      (t : Table) (j : String) (at : ℕ) (u : Table) (n : Bool) (k : String)
      → update_row t j at ≡ ok (u, n)
      → row u k ≡ (if str_eq j k then consume_at at (row t k) else row t k)
  pub update_counts :
      (t : Table) (j : String) (at : ℕ) (u : Table) (n : Bool)
      → update_row t j at ≡ ok (u, n)
      → n ≡ is_unconsumed (row t j)

pub data StoreError : Type 0 where
  token_not_found token_exists store_failed : StoreError

abbrev insert_error : SqlError → StoreError
insert_error unique = token_exists
insert_error failed = store_failed

module _ (db : TokenTable) where
  open db use {Table, insert_row, select_row, update_row}

  -- Insert; the new row's consumed_at is NULL.
  unfoldable pub store_insert : Table → TokenState → Result StoreError Table
  store_insert t s = elim (insert_row t (record s { consumed_at = none })) [
    | ok u ↦ ok u
    | err e ↦ err (insert_error e)
  ]

  -- Get
  unfoldable pub store_get : Table → String → Result StoreError TokenState
  store_get t token = elim (select_row t (trim_space token)) [
    | ok (some s) ↦ ok s
    | ok none ↦ err token_not_found
    | err e ↦ err store_failed
  ]

  -- MarkConsumed
  unfoldable pub mark_consumed : Table → String → ℕ → Result StoreError (Table × Bool)
  mark_consumed t token at = elim (update_row t (trim_space token) at) [
    | ok x ↦ ok x
    | err e ↦ err store_failed
  ]
