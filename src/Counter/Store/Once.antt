-- ===== src/Counter/Store/Once.antt =====
-- An increment that is retried until it succeeds counts once.
use leptos_wasi.Prelude.{
  ℕ, ◌+◌, ◌<◌, ◌≤◌, ltb, arith, ◌≡◌, ◌⊎◌, refl, ap, ◌∙◌, Bool, true, false, List, [], ◌∷◌, Option,
  none, some, Result, ok, err, ◌>>=◌, inl, inr,
}
use leptos_wasi.Std.Str.{Bytes}
use leptos_wasi.Http.Laws.{bytes_eq_refl}
use leptos_wasi.Counter.Store.{
  StoreError, unavailable, validate_identifier, Database, set_counter, set_operation, call,
  insert_counter, reserve, bump, recall, value_of_operation, transaction, conclude,
  increment_counter, read_counter, value_or_zero, i64_max,
}

call-holds :
    {A : Type 0} (Q : Result A StoreError → Type 0) (b : Bool) (k : Unit {0} → Result A StoreError)
    → (b ≡ true → Q (err unavailable))
    → Q (k tt)
    → Q (call b >>= k)
unfolding call
call-holds Q true k bad good = bad refl
call-holds Q false k bad good = good

call-holds_inside :
    {A B : Type 0} (Q : Result B StoreError → Type 0) (b : Bool)
    (k : Unit {0} → Result A StoreError) (g : A → Result B StoreError)
    → (b ≡ true → Q (err unavailable))
    → Q (k tt >>= g)
    → Q ((call b >>= k) >>= g)
unfolding call
call-holds_inside Q true k g bad good = bad refl
call-holds_inside Q false k g bad good = good

counters-insert_counter :
    (id : Bytes) (c : Option ℕ) (db : Database)
    → db.counters id ≡ c
    → (insert_counter id c db).counters id ≡ some (value_or_zero c)
unfolding insert_counter set_counter
counters-insert_counter id none db e = rw (bytes_eq_refl id) refl
counters-insert_counter id (some value) db e = e

operations-insert_counter :
    (id : Bytes) (c : Option ℕ) (db : Database)
    → (insert_counter id c db).operations ≡ db.operations
unfolding insert_counter set_counter
operations-insert_counter id none db = refl
operations-insert_counter id (some value) db = refl

-- The database after an operation that is counted.
unfoldable pub incremented : Bytes → Bytes → Database → Database
incremented id operation db =
    let value = value_or_zero (db.counters id) + 1 in
    set_operation id operation (some value) (
      set_counter id value
        (set_operation id operation none (insert_counter id (db.counters id) db)))

module _ (id operation : Bytes) (fails : ℕ → Bool) (Q : Result (ℕ × Database) StoreError → Type 0)
    (bad : (n : ℕ) → fails n ≡ true → Q (err unavailable)) where
  value_of_operation-holds :
      (db : Database) (value : ℕ)
      → db.counters id ≡ some value
      → ltb value i64_max ≡ true
      → Q (
          ok (
            value + 1,
            set_operation id operation (some (value + 1)) (set_counter id (value + 1) db),
          ))
      → Q (
          value_of_operation fails id operation (true, db) >>= λ done.
          call (fails 5) >>= λ _. ok done)
  unfolding value_of_operation
  value_of_operation-holds db value e room good = call-holds_inside Q (fails 3) _ _ (bad 3) (
      rw e (
        unfold bump in
        rw room
          (call-holds_inside Q (fails 4) _ _ (bad 4) (call-holds Q (fails 5) _ (bad 5) good))))

  -- A new operation.
  transaction-holds_fresh :
      (db : Database)
      → db.operations id operation ≡ none
      → ltb (value_or_zero (db.counters id)) i64_max ≡ true
      → Q (ok (value_or_zero (db.counters id) + 1, incremented id operation db))
      → Q (transaction fails id operation db)
  unfolding transaction incremented
  transaction-holds_fresh db fresh room good = call-holds Q (fails 0) _ (bad 0) (
      call-holds Q (fails 1) _ (bad 1) (
        call-holds Q (fails 2) _ (bad 2) (
          rw (ap (λ f. f id operation) (operations-insert_counter id (db.counters id) db) ∙ fresh) (
            unfold reserve in
            (value_of_operation-holds _ (value_or_zero (db.counters id))
              (unfold set_operation in counters-insert_counter id (db.counters id) db refl) room
              good)))))

  -- An operation that was counted before.
  transaction-holds_again :
      (db : Database) (n value : ℕ)
      → db.counters id ≡ some n
      → db.operations id operation ≡ some (some value)
      → Q (ok (value, db))
      → Q (transaction fails id operation db)
  unfolding transaction insert_counter
  transaction-holds_again db n value e h good = call-holds Q (fails 0) _ (bad 0) (
      call-holds Q (fails 1) _ (bad 1) (
        call-holds Q (fails 2) _ (bad 2) (
          rw e (
            rw h (
              unfold reserve in
              (unfold value_of_operation in
                (call-holds_inside Q (fails 3) _ _ (bad 3)
                  (rw h (unfold recall in (call-holds Q (fails 5) _ (bad 5) good))))))))))

counters-incremented :
    (id operation : Bytes) (db : Database)
    → (incremented id operation db).counters id ≡ some (value_or_zero (db.counters id) + 1)
unfolding incremented set_operation set_counter
counters-incremented id operation db = rw (bytes_eq_refl id) refl

operations-incremented :
    (id operation : Bytes) (db : Database)
    → (incremented id operation db).operations id operation
      ≡ some (some (value_or_zero (db.counters id) + 1))
unfolding incremented set_operation set_counter
operations-incremented id operation db = rw (bytes_eq_refl id) (rw (bytes_eq_refl operation) refl)

-- A client that tries again and again, each time with other calls that fail.
unfoldable pub attempts : Bytes → Bytes → List (ℕ → Bool) → Database → Database
attempts id operation [] db = db
attempts id operation (fails ∷ rest) db =
    attempts id operation rest (increment_counter fails id operation db).1

module _ (id operation : Bytes) (valid : validate_identifier id ≡ ok tt)
    (valid_operation : validate_identifier operation ≡ ok tt) (db : Database)
    (fresh : db.operations id operation ≡ none)
    (room : value_or_zero (db.counters id) < i64_max) where
  has_room : ltb (value_or_zero (db.counters id)) i64_max ≡ true
  has_room = ground arith

  -- An attempt from the database before the operation, or from the one after it.
  increment_counter-holds :
      (fails : ℕ → Bool) (Q : Result ℕ StoreError × Database → Type 0) (d : Database)
      → (d ≡ db) ⊎ (d ≡ incremented id operation db)
      → ((n : ℕ) → fails n ≡ true → Q (err unavailable, d))
      → Q (ok (value_or_zero (db.counters id) + 1), incremented id operation db)
      → Q (increment_counter fails id operation d)
  unfolding increment_counter
  increment_counter-holds fails Q d (inl same) bad good =
      rw (valid, valid_operation)
        (transaction-holds_fresh id operation fails (λ r. Q (conclude fails d r))
          (λ n h. unfold conclude in bad n h) d
          (ap (λ (x : Database). x.operations id operation) same ∙ fresh)
          (ap (λ (x : Database). ltb (value_or_zero (x.counters id)) i64_max) same ∙ has_room)
          (unfold conclude in rw same good))
  increment_counter-holds fails Q d (inr same) bad good =
      rw (valid, valid_operation)
        (transaction-holds_again id operation fails (λ r. Q (conclude fails d r))
          (λ n h. unfold conclude in bad n h) d (value_or_zero (db.counters id) + 1)
          (value_or_zero (db.counters id) + 1)
          (ap (λ (x : Database). x.counters id) same ∙ counters-incremented id operation db)
          (ap (λ (x : Database). x.operations id operation) same
            ∙ operations-incremented id operation db)
          (unfold conclude in rw same good))

  attempts-before_or_after :
      (tries : List (ℕ → Bool)) (d : Database)
      → (d ≡ db) ⊎ (d ≡ incremented id operation db)
      → (attempts id operation tries d ≡ db)
        ⊎ (attempts id operation tries d ≡ incremented id operation db)
  unfolding attempts
  attempts-before_or_after [] d at = at
  attempts-before_or_after (fails ∷ rest) d at =
      attempts-before_or_after rest (increment_counter fails id operation d).1 (
        increment_counter-holds fails (λ x. (x.1 ≡ db) ⊎ (x.1 ≡ incremented id operation db)) d at
          (λ n h. at) (inr refl))

  -- A new operation on a counter below the largest `i64`, both with valid identifiers, tried any number
  -- of times with any calls of the database failing, and then once more with none failing: it is
  -- answered with one more than the counter was, and the counter is then one more than it was, however
  -- many of the attempts before had been committed.
  pub increment_counter_once :
      (tries : List (ℕ → Bool))
      → (increment_counter (λ n. false) id operation (attempts id operation tries db)
          ≡ (ok (value_or_zero (db.counters id) + 1), incremented id operation db))
        × (read_counter false id (incremented id operation db)
            ≡ ok (value_or_zero (db.counters id) + 1))
  increment_counter_once tries = (
    increment_counter-holds (λ n. false)
        (λ x. x ≡ (ok (value_or_zero (db.counters id) + 1), incremented id operation db))
        (attempts id operation tries db) (attempts-before_or_after tries db (inl refl))
        (λ n h. absurd cc) refl,
    unfold read_counter in
        (rw valid (unfold call in (rw (counters-incremented id operation db) refl))),
  )

-- A counter that has reached the largest `i64` stays as it is: a new operation fails, whatever calls
-- fail besides, and leaves nothing behind.
increment_counter_full :
    (id operation : Bytes) (db : Database) (fails : ℕ → Bool) (value : ℕ)
    → validate_identifier id ≡ ok tt
    → validate_identifier operation ≡ ok tt
    → db.operations id operation ≡ none
    → db.counters id ≡ some value
    → i64_max ≤ value
    → increment_counter fails id operation db ≡ (err unavailable, db)
unfolding increment_counter transaction value_of_operation call conclude insert_counter reserve bump
    set_operation
increment_counter_full id operation db fails value valid valid_operation fresh at full =
    rw (valid, valid_operation, at, fresh)
      (call-holds Q (fails 0) _ (λ _. refl)
        (call-holds Q (fails 1) _ (λ _. refl)
          (call-holds Q (fails 2) _ (λ _. refl)
            (call-holds_inside Q (fails 3) _ _ (λ _. refl) (rw (at, is_full) refl)))))
  where
    Q : Result (ℕ × Database) StoreError → Type 0
    Q r = conclude fails db r ≡ (err unavailable, db)

    is_full : ltb value i64_max ≡ false
    is_full = ground arith
