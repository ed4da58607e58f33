-- ===== src/Account/Statements.antt =====
-- What a statement on the tables of the accounts ensures, if it fails and if it does not:
-- services/tracking-gateway/internal/storage/postgres.
use wrany.Prelude.{◌≡◌, refl, Bool, true, false, Option, none, some, Result, ok, err, if-elim}
use wrany.Action.{Outcome, Ensures, first_of}
use wrany.Account.Tables.{
  AccountError, AccountDb, Call, next_statement, statement, select, insert, change, or_error,
  refuse_if,
}
use wrany.Account.Auth.{AuthWork, on_store, answer_as}

pub statement-Ensures :
    {A : Type 0} (P E : AccountDb → Type 0) (Q : A → AccountDb → Type 0)
    (run : AccountDb → Result AccountError A × AccountDb)
    → ((db : AccountDb) → P db → E (next_statement db))
    → ((db : AccountDb) → P db → Outcome E Q (run (next_statement db)))
    → Ensures P E Q (statement run)
unfolding statement
statement-Ensures P E Q run fails runs db h =
    if-elim (Outcome E Q) (first_of db.failures) _ _ (λ _. fails db h) (λ _. runs db h)

pub refuse_if-Outcome :
    (E Q : AccountDb → Type 0) (taken : Bool) (e : AccountError) (db after : AccountDb)
    → E db
    → (taken ≡ false → Q after)
    → Outcome E (λ _. Q) (refuse_if taken e db after)
refuse_if-Outcome E Q true e db after h k = h
refuse_if-Outcome E Q false e db after h k = k refl

pub or_error-Outcome :
    {S A : Type 0} (E : S → Type 0) (Q : A → S → Type 0) (o : Option A) (e : AccountError) (s : S)
    → E s
    → ((a : A) → o ≡ some a → Q a s)
    → Outcome E Q (or_error o e, s)
or_error-Outcome E Q none e s h k = h
or_error-Outcome E Q (some a) e s h k = k a refl

-- A condition that the schedule of failures does not touch.
abbrev pub IsStable : (AccountDb → Type 0) → Type 0
IsStable P = (db : AccountDb) → P db → P (next_statement db)

pub insert-Ensures :
    (P Q : AccountDb → Type 0) (taken : AccountDb → Bool) (e : AccountError)
    (add : AccountDb → AccountDb)
    → IsStable P
    → ((db : AccountDb) → P db → taken db ≡ false → Q (add db))
    → Ensures P P (λ _. Q) (insert taken e add)
unfolding insert
insert-Ensures P Q taken e add stable step =
    statement-Ensures P P (λ _. Q) (λ db. refuse_if (taken db) e db (add db)) stable
      λ db h.
        refuse_if-Outcome P Q (taken (next_statement db)) e (next_statement db)
          (add (next_statement db)) (stable db h) (step (next_statement db) (stable db h))

pub select-Ensures :
    {A : Type 0} (P E : AccountDb → Type 0) (Q : A → AccountDb → Type 0)
    (row : AccountDb → Option A) (missing : AccountError)
    → IsStable P
    → ((db : AccountDb) → P db → E db)
    → ((db : AccountDb) → P db → (a : A) → row db ≡ some a → Q a db)
    → Ensures P E Q (select row missing)
unfolding select
select-Ensures P E Q row missing stable weak step =
    statement-Ensures P E Q (λ db. (or_error (row db) missing, db))
      (λ db h. weak (next_statement db) (stable db h))
      λ db h.
        or_error-Outcome E Q (row (next_statement db)) missing (next_statement db)
          (weak (next_statement db) (stable db h)) (step (next_statement db) (stable db h))

pub change-Ensures :
    (P E Q : AccountDb → Type 0) (run : AccountDb → AccountDb)
    → IsStable P
    → ((db : AccountDb) → P db → E db)
    → ((db : AccountDb) → P db → Q (run db))
    → Ensures P E (λ _. Q) (change run)
unfolding change
change-Ensures P E Q run stable weak step =
    statement-Ensures P E (λ _. Q) (λ db. (ok tt, run db))
      (λ db h. weak (next_statement db) (stable db h))
      λ db h. step (next_statement db) (stable db h)

lifted :
    {A : Type 0} (E : AccountDb → Type 0) (Q : A → AccountDb → Type 0) (work : AuthWork AccountDb)
    (r : Result AccountError A × AccountDb)
    → Outcome E Q r
    → Outcome
        (λ (w : AuthWork AccountDb). E w.store)
        (λ a (w : AuthWork AccountDb). Q a w.store)
        (r.0, record work { store = r.1 })
lifted E Q work (err e, db) k = k
lifted E Q work (ok a, db) k = k

-- A statement changes the database only.
pub on_store-Ensures :
    {A : Type 0} (P E : AccountDb → Type 0) (Q : A → AccountDb → Type 0) (m : Call AccountDb A)
    → Ensures P E Q m
    → Ensures
        (λ (work : AuthWork AccountDb). P work.store)
        (λ work. E work.store)
        (λ a work. Q a work.store)
        (on_store m)
on_store-Ensures P E Q m h work p = lifted E Q work (m work.store) (h work.store p)

pub answer_as-Outcome :
    {S A : Type 0} (E : S → Type 0) (Q : A → S → Type 0) (e : AccountError)
    (r : Result AccountError A × S)
    → Outcome E Q r
    → Outcome E Q (answer_as e r)
answer_as-Outcome E Q e (err other, s) h = h
answer_as-Outcome E Q e (ok a, s) h = h
