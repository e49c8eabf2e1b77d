-- ===== src/Store/Keeps.antt =====
-- Invariants of transactions.
use muse_agent_social.Prelude.{Bool, true, false, ◌≡◌, subst, sym, if◌then◌else◌}
use muse_agent_social.Store.Tables.{Db, Code}
use muse_agent_social.Store.Txn.{
  Txn, Outcome, done, raised, rejected, continue, recover, catch, commit_or_rollback, transaction,
  ◌>>=◌,
}

-- `m` keeps `P`, whether it returns or raises.
pub record Keeps (P : Db → Type 0) {A : Type 0} (m : Txn A) : Type 0 where
  pub at : (db : Db) → P db → P (m db).1

module _ {P : Db → Type 0} {A B : Type 0} where
  continue-Keeps :
      (r : Outcome A) (f : A → Txn B) (db : Db)
      → ((a : A) → Keeps P (f a))
      → P db
      → P (continue r f db).1
  continue-Keeps (done a) f db kf = (kf a).at db
  continue-Keeps (raised e) f db kf = λ h. h

  pub bind-Keeps :
      {m : Txn A} {f : A → Txn B} → Keeps P m → ((a : A) → Keeps P (f a)) → Keeps P (m >>= f)
  unfolding ◌>>=◌
  bind-Keeps {m} {f} km kf = record {
    at = λ db h. continue-Keeps (m db).0 f (m db).1 kf (km.at db h);
  }

module _ (P : Db → Type 0) {A : Type 0} where
  rolled_back :
      (r : Outcome A) (before after : Db)
      → P before
      → P after
      → P (commit_or_rollback r before after).1
  rolled_back (done a) before after hb ha = ha
  rolled_back (raised e) before after hb ha = hb

module _ {P : Db → Type 0} {A : Type 0} where
  recover-Keeps :
      (r : Outcome A) (f : Code → Txn A) (db : Db)
      → ((c : Code) → Keeps P (f c))
      → P db
      → P (recover r f db).1
  recover-Keeps (done a) f db kf = λ h. h
  recover-Keeps (raised (rejected c)) f db kf = (kf c).at db
  recover-Keeps (raised _) f db kf = λ h. h

  pub catch-Keeps :
      {m : Txn A} {f : Code → Txn A}
      → Keeps P m
      → ((c : Code) → Keeps P (f c))
      → Keeps P (catch m f)
  unfolding catch
  catch-Keeps {m} {f} km kf = record {
    at = λ db h. recover-Keeps (m db).0 f (m db).1 kf (km.at db h);
  }

  pub transaction-Keeps : {m : Txn A} → Keeps P m → Keeps P (transaction m)
  unfolding transaction
  transaction-Keeps {m} km = record {
    at = λ db h. rolled_back P (m db).0 db (m db).1 h (km.at db h);
  }

  pub if-Keeps : (b : Bool) {m n : Txn A} → Keeps P m → Keeps P n → Keeps P (if b then m else n)
  if-Keeps true km kn = km
  if-Keeps false km kn = kn

  -- A transaction that only reads.
  pub reads-Keeps : {r : Db → Outcome A} → Keeps P (λ db. (r db, db))
  reads-Keeps = record { at = λ db h. h }

-- A transaction that leaves a view alone keeps what the view shows.
module _ {V : Type 0} {view : Db → V} (Q : V → Type 0) {A : Type 0} where
  pub view-Keeps : {m : Txn A} → ((db : Db) → view (m db).1 ≡ view db) → Keeps (λ db. Q (view db)) m
  view-Keeps same = record { at = λ db h. subst Q (sym (same db)) h }
