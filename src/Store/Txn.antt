-- ===== src/Store/Txn.antt =====
-- Statements on the connection. What was written before an exception stays written, until
-- `transaction` rolls it back, so the state comes back beside the exception too.

use muse_agent_social.Store.Tables.{Db, Code}

-- An exception: a `ProjectionError` with its code, or one that no handler of the projections
-- catches (ValueError or OverflowError, KeyError, TypeError, IntegrityError).
pub data Fault : Type 0 where
  rejected : Code → Fault
  value_error key_error type_error integrity_error : Fault

pub data Outcome {ℓ} (A : Type ℓ) : Type ℓ where
  done : A → Outcome A
  raised : Fault → Outcome A

abbrev pub Txn : Type 0 → Type 0
Txn A = Db → Outcome A × Db

abbrev pub continue : {A B : Type 0} → Outcome A → (A → Txn B) → Txn B
continue (done a) f db = f a db
continue (raised e) f db = (raised e, db)

infixl 5 ◌>>=◌ ◌>>◌
unfoldable pub ◌>>=◌ : {A B : Type 0} → Txn A → (A → Txn B) → Txn B
◌>>=◌ m f db = let (r, db') = m db in continue r f db'

abbrev pub ◌>>◌ : {B : Type 0} → Txn (Unit {0}) → Txn B → Txn B
m >> n = m >>= λ _. n

abbrev pub pure : {A : Type 0} → A → Txn A
pure a db = (done a, db)

abbrev pub throw : {A : Type 0} → Fault → Txn A
throw e db = (raised e, db)

abbrev pub reject : {A : Type 0} → Code → Txn A
reject c = throw (rejected c)

abbrev pub gets : {A : Type 0} → (Db → A) → Txn A
gets f db = (done (f db), db)

abbrev pub modify : (Db → Db) → Txn (Unit {0})
modify f db = (done tt, f db)

abbrev pub recover : {A : Type 0} → Outcome A → (Code → Txn A) → Txn A
recover (done a) handler db = (done a, db)
recover (raised (rejected c)) handler db = handler c db
recover (raised e) handler db = (raised e, db)

-- `except ProjectionError as exc`: any other exception goes on.
unfoldable pub catch : {A : Type 0} → Txn A → (Code → Txn A) → Txn A
catch m handler db = let (r, db') = m db in recover r handler db'

abbrev pub commit_or_rollback : {A : Type 0} → Outcome A → Db → Db → Outcome A × Db
commit_or_rollback (done a) before after = (done a, after)
commit_or_rollback (raised e) before after = (raised e, before)

-- store/db.py: commit on success, roll back on any exception.
unfoldable pub transaction : {A : Type 0} → Txn A → Txn A
transaction m db = let (r, db') = m db in commit_or_rollback r db db'
