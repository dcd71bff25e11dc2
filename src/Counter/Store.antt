-- ===== src/Counter/Store.antt =====
-- src/examples/production-counter/store/src/main.rs: the two handlers of the counter store. The tables
-- are maps by their primary keys, and each statement is what SQL says of it. `fails n` says that the
-- n-th call of the database in a transaction fails, which ends the transaction without effect.
pub mod Once
mod Tests
use leptos_wasi.Prelude.{
  ℕ, ◌+◌, Bool, true, false, not, ◌&&◌, ◌||◌, List, [], ◌∷◌, Option, none, some, Result, ok, err,
  ◌>>=◌, if◌then◌else◌, ltb, ◌==◌, all, in_range, is_empty, length,
}
use leptos_wasi.Std.Str.{Bytes, bytes_eq}

pub data StoreError : Type 0 where
  invalid_request unavailable : StoreError

-- The status of `IntoResponse for StoreError`.
unfoldable pub error_status : StoreError → ℕ
error_status invalid_request = 400
error_status unavailable = 503

abbrev pub max_identifier_length : ℕ
max_identifier_length = 128

-- `is_ascii_alphanumeric`, and the three bytes besides.
unfoldable pub is_identifier_byte : ℕ → Bool
is_identifier_byte byte =
    in_range b'0' b'9' byte
    || in_range b'A' b'Z' byte
    || in_range b'a' b'z' byte
    || byte == b'-'
    || byte == b'_'
    || byte == b'.'

unfoldable pub validate_identifier : Bytes → Result (Unit {0}) StoreError
validate_identifier value =
    if is_empty value
      || ltb max_identifier_length (length value)
      || not (all is_identifier_byte value)
    then err invalid_request
    else ok tt

-- The table `counters`, and `counter_operations` with its results.
pub record Database : Type 0 where
  pub counters : Bytes → Option ℕ
  pub operations : Bytes → Bytes → Option (Option ℕ)

unfoldable pub set_counter : Bytes → ℕ → Database → Database
set_counter id value db = record db {
  counters = λ x. if bytes_eq x id then some value else db.counters x;
}

unfoldable pub set_operation : Bytes → Bytes → Option ℕ → Database → Database
set_operation id operation result db = record db {
  operations =
      λ x y. if bytes_eq x id && bytes_eq y operation then some result else db.operations x y;
}

-- `?` on a call of the database.
unfoldable pub call : Bool → Result (Unit {0}) StoreError
call true = err unavailable
call false = ok tt

-- `INSERT INTO counters … ON CONFLICT DO NOTHING`.
unfoldable pub insert_counter : Bytes → Option ℕ → Database → Database
insert_counter id none db = set_counter id 0 db
insert_counter id (some value) db = db

-- `INSERT INTO counter_operations … RETURNING 1`: whether the operation is new.
unfoldable pub reserve : Bytes → Bytes → Option (Option ℕ) → Database → Bool × Database
reserve id operation none db = (true, set_operation id operation none db)
reserve id operation (some result) db = (false, db)

abbrev pub i64_max : ℕ
i64_max = 0x7fffffffffffffff

-- `UPDATE counters SET value = value + 1 … RETURNING value`, which finds the row. Values are never
-- negative. Above the largest `i64` the sum of SQLite is no integer, so it does not decode as one, and
-- the call fails.
unfoldable pub bump : Bytes → Option ℕ → Database → Result (ℕ × Database) StoreError
bump id none db = err unavailable
bump id (some value) db =
    if ltb value i64_max then ok (value + 1, set_counter id (value + 1) db) else err unavailable

-- `SELECT result_value …`, and the `ok_or` behind it.
unfoldable pub recall : Option (Option ℕ) → Result ℕ StoreError
recall none = err unavailable
recall (some none) = err invalid_request
recall (some (some value)) = ok value

module _ (fails : ℕ → Bool) where
  -- The branch on `reserved`.
  unfoldable pub value_of_operation :
      Bytes → Bytes → Bool × Database → Result (ℕ × Database) StoreError
  value_of_operation id operation (true, db) = call (fails 3) >>= λ _.
      bump id (db.counters id) db >>= λ bumped.
      call (fails 4) >>= λ _. ok (bumped.0, set_operation id operation (some bumped.0) bumped.1)
  value_of_operation id operation (false, db) =
      call (fails 3) >>= λ _. recall (db.operations id operation) >>= λ value. ok (value, db)

  -- From `begin` to `commit`.
  unfoldable pub transaction : Bytes → Bytes → Database → Result (ℕ × Database) StoreError
  transaction id operation db = call (fails 0) >>= λ _. call (fails 1) >>= λ _.
      let inserted = insert_counter id (db.counters id) db in
      call (fails 2) >>= λ _.
      value_of_operation id operation
        (reserve id operation (inserted.operations id operation) inserted)
      >>= λ done. call (fails 5) >>= λ _. ok done

  -- What is answered, and the database: that of the transaction if it was committed.
  unfoldable pub conclude :
      Database → Result (ℕ × Database) StoreError → Result ℕ StoreError × Database
  conclude db (err e) = (err e, db)
  conclude db (ok done) = (ok done.0, done.1)

  unfoldable pub increment_counter : Bytes → Bytes → Database → Result ℕ StoreError × Database
  increment_counter id operation db = conclude db (
      validate_identifier id >>= λ _.
      validate_identifier operation >>= λ _. transaction id operation db)

abbrev pub value_or_zero : Option ℕ → ℕ
value_or_zero none = 0
value_or_zero (some value) = value

unfoldable pub read_counter : Bool → Bytes → Database → Result ℕ StoreError
read_counter failed id db =
    validate_identifier id >>= λ _. call failed >>= λ _. ok (value_or_zero (db.counters id))
