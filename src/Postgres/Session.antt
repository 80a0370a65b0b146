-- ===== src/Postgres/Session.antt =====
-- adapters/postgres: a connection as one of the two identities, as the interface through which the
-- adapter uses the driver and the secret registry. `S` is the state of everything outside.
use retentionops_connector.Prelude.{
  ℕ, ◌≡◌, refl, String, Bool, true, false, List, [], ◌∷◌, if◌then◌else◌, Option,
}
use retentionops_connector.Prelude.Int.{ℤ, pos, ◌*ℤ◌, ltb_ℤ}
use retentionops_connector.Prelude.Text.{Time}
use retentionops_connector.Prelude.Result.{Result, Check, ok, err}
use retentionops_connector.Protocol.Job.{Limits}
use retentionops_connector.Protocol.Result.{FailureCode}
use retentionops_connector.Postgres.Errors.{DriverError, RunError, operational, classify}

pub data Role : Type 0 where
  reader executor : Role

-- One `SET LOCAL` of a transaction, in milliseconds.
pub data Setting : Type 0 where
  statement_timeout idle_timeout lock_timeout : ℤ → Setting

unfoldable pub timeout_statements : Limits → List Setting
timeout_statements l =
    statement_timeout (l.statement_timeout_seconds *ℤ pos 1000)
    ∷ idle_timeout (l.statement_timeout_seconds *ℤ pos 1000)
    ∷ (if ltb_ℤ (pos 0) l.lock_timeout_seconds
        then lock_timeout (l.lock_timeout_seconds *ℤ pos 1000) ∷ []
        else [])

-- The count of the candidates, with their oldest and newest instant.
pub record Candidates : Type 0 where
  pub rows : ℤ
  pub oldest : Option Time
  pub newest : Option Time

-- A column of the catalogue, and a foreign key between two columns.
pub record CatalogRow : Type 0 where
  pub schema : String
  pub table : String
  pub column : String
  pub data_type : String
  pub nullable : Bool
  pub primary : Bool

pub record ReferenceRow : Type 0 where
  pub source_schema : String
  pub source_table : String
  pub source_column : String
  pub target_schema : String
  pub target_table : String
  pub target_column : String

-- The calls, each for the statement that the source builds for the job at hand. `delete_rows` is
-- the batch statement with its `LIMIT`, and returns the rows affected. `close`
-- closes the connection that was opened last.
pub record Session (S : Type 0) : Type 0 where
  pub resolve_secret : Role → S → Bool × S
  pub parse_settings : Role → Bool
  pub dial : Role → S → Check DriverError × S
  pub begin : S → Check DriverError × S
  pub begin_read_only : S → Check DriverError × S
  pub set_local : Setting → S → Check DriverError × S
  pub count_candidates : S → Result DriverError Candidates × S
  pub count_resource : S → Result DriverError ℤ × S
  pub count_held : S → Result DriverError ℤ × S
  pub relation_size : S → Result DriverError (ℤ × ℤ) × S
  pub read_version : S → Result DriverError (String × Bool) × S
  pub read_catalog : S → Result DriverError (List CatalogRow) × S
  pub read_references : S → Result DriverError (List ReferenceRow) × S
  pub delete_rows : ℤ → S → Result DriverError ℕ × S
  pub commit : S → Check DriverError × S
  pub rollback : S → S
  pub close : S → S
  pub now : S → Time
  -- Whether the candidate and the hold conditions compile to a statement.
  pub compiles : Bool

-- A call that may fail, with the state that it leaves either way.
abbrev pub Action : Type 0 → Type 0 → Type 0
Action S A = S → Result RunError A × S

module _ {S A B : Type 0} where
  abbrev pub continue : Result RunError A → (A → Action S B) → Action S B
  continue (ok a) f s = f a s
  continue (err e) f s = (err e, s)

  infixl 5 ◌>>=◌ ◌>>◌
  abbrev pub ◌>>=◌ : Action S A → (A → Action S B) → Action S B
  ◌>>=◌ m f s = let (r, s') = m s in continue r f s'

  abbrev pub ◌>>◌ : Action S A → Action S B → Action S B
  m >> k = m >>= λ _. k

abbrev pub classified : {A : Type 0} → Result DriverError A → Result RunError A
classified (ok a) = ok a
classified (err e) = err (operational (classify e))

module _ {S A B : Type 0} where
  -- A chain that succeeds has succeeded at each link.
  pub bind-eq-ok :
      (m : Action S A) (f : A → Action S B) (s : S) (b : B)
      → ((m >>= f) s).0 ≡ ok b
      → (a : A) × (s' : S) × (m s ≡ (ok a, s')) × ((f a s').0 ≡ ok b)
  bind-eq-ok m f s b h = go (m s) refl h
    where
      go :
          (r : Result RunError A × S)
          → m s ≡ r
          → (continue r.0 f r.1).0 ≡ ok b
          → (a : A) × (s' : S) × (m s ≡ (ok a, s')) × ((f a s').0 ≡ ok b)
      go (ok a, s') e k = (a, s', e, k)
      go (err x, s') e k = cc

module _ {S A : Type 0} where
  abbrev pub pure : A → Action S A
  pure a s = (ok a, s)

  -- A driver call whose error is classified.
  abbrev pub driver : (S → Result DriverError A × S) → Action S A
  driver call s = let (r, s') = call s in (classified r, s')

  -- `defer cleanup()`, on every way out.
  abbrev pub finally : (S → S) → Action S A → Action S A
  finally cleanup m s = let (r, s') = m s in (r, cleanup s')

module _ {S : Type 0} (session : Session S) where
  abbrev pub fail_unless : Bool → FailureCode → Action S (Unit {0})
  fail_unless true code s = (ok tt, s)
  fail_unless false code s = (err (operational code), s)

  unfoldable pub connect : Role → Action S (Unit {0})
  connect role s =
      let (resolved, s') = session.resolve_secret role s in
      (fail_unless resolved FailureCode.secret
          >> (fail_unless (session.parse_settings role) FailureCode.internal
              >> driver (session.dial role)))
        s'

  unfoldable pub set_all : List Setting → Action S (Unit {0})
  set_all [] = pure tt
  set_all (x ∷ xs) = driver (session.set_local x) >> set_all xs
