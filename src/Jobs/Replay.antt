-- ===== src/Jobs/Replay.antt =====
-- internal/jobs/replay.go: the replay ledger, a directory of empty files named by the digest of a
-- nonce. What the disk may do is an argument: which calls fail. A file's modification time is the
-- clock of the process that made it.
use retentionops_connector.Prelude.{
  ℕ, suc, ◌≡◌, ◌⊎◌, String, Bool, true, false, ◌||◌, List, [], ◌∷◌, if◌then◌else◌, In, here, there,
  arith,
}
use retentionops_connector.Prelude.Int.{ℤ, ◌-ℤ◌}
use retentionops_connector.Prelude.Text.{Time, ◌==◌, eq_refl, after}
use retentionops_connector.Prelude.Result.{Result, Check, ok, err}

pub record Entry : Type 0 where
  pub name : String
  pub modified : Time

pub record Ledger : Type 0 where
  pub entries : List Entry
  pub retention : ℤ

pub data LedgerError : Type 0 where
  replayed disk_error : LedgerError

-- Whether `OpenFile` fails for another reason than an existing file, and whether `Close` fails.
pub record OpenFaults : Type 0 where
  pub open_fails : Bool
  pub close_fails : Bool

-- Which entries cannot be examined, and which cannot be removed.
pub record PruneFaults : Type 0 where
  pub read_fails : Bool
  pub info_fails : String → Bool
  pub remove_fails : String → Bool

unfoldable pub has_entry : String → List Entry → Bool
has_entry name [] = false
has_entry name (e ∷ es) = e.name == name || has_entry name es

-- `O_CREATE|O_EXCL`: one step on the disk, which finds the file or makes it. `digest` names the
-- entry of a nonce.
unfoldable pub consume :
    (String → String) → OpenFaults → Time → String → Ledger → Check LedgerError × Ledger
consume digest faults now nonce l =
    if faults.open_fails
    then (err disk_error, l)
    else if has_entry (digest nonce) l.entries
    then (err replayed, l)
    else (
      if faults.close_fails then err disk_error else ok tt,
      record l { entries = record { name = digest nonce; modified = now } ∷ l.entries },
    )

-- An entry stays if it cannot be examined, if it is younger than the cutoff, or if it cannot be
-- removed.
abbrev pub stays : PruneFaults → Time → Entry → Bool
stays faults cutoff e =
    faults.info_fails e.name || (after e.modified cutoff || faults.remove_fails e.name)

unfoldable pub prune_entries : PruneFaults → Time → List Entry → List Entry × ℕ
prune_entries faults cutoff [] = ([], 0)
prune_entries faults cutoff (e ∷ es) =
    let (kept, removed) = prune_entries faults cutoff es in
    if stays faults cutoff e then (e ∷ kept, removed) else (kept, suc removed)

unfoldable pub prune : PruneFaults → Time → Ledger → Result LedgerError ℕ × Ledger
prune faults now l =
    if faults.read_fails
    then (err disk_error, l)
    else let (kept, removed) = prune_entries faults (now -ℤ l.retention) l.entries in
      (ok removed, record l { entries = kept })

pub In-has_entry : {e : Entry} {es : List Entry} → In e es → has_entry e.name es ≡ true
unfolding has_entry
In-has_entry {e} here = rw (eq_refl e.name)
In-has_entry (there i) = ground (arith, In-has_entry i)

stays_young :
    (faults : PruneFaults) (cutoff : Time) (e : Entry)
    → after e.modified cutoff ≡ true
    → stays faults cutoff e ≡ true
stays_young faults cutoff e h = ground arith

In-either :
    (b : Bool) {e : Entry} (x : Entry) (kept : List Entry) (m n : ℕ)
    → In e kept
    → In e (if◌then◌else◌ {A = List Entry × ℕ} b (x ∷ kept, m) (kept, n)).0
In-either true x kept m n i = there i
In-either false x kept m n i = i

-- An entry younger than the cutoff survives a prune.
pub In-prune_entries :
    (faults : PruneFaults) (cutoff : Time) (e : Entry) (es : List Entry)
    → In e es
    → after e.modified cutoff ≡ true
    → In e (prune_entries faults cutoff es).0
unfolding prune_entries
In-prune_entries faults cutoff e [] i young = elim i [ ]
In-prune_entries faults cutoff e (x ∷ xs) here young = rw (stays_young faults cutoff e young) here
In-prune_entries faults cutoff e (x ∷ xs) (there i) young =
    In-either (stays faults cutoff x) x _ _ _ (In-prune_entries faults cutoff e xs i young)

-- A prune changes nothing, or keeps what `prune_entries` keeps.
pub prune-entries :
    (faults : PruneFaults) (now : Time) (l : Ledger)
    → ((prune faults now l).1 ≡ l)
      ⊎ ((prune faults now l).1
          ≡ record l { entries = (prune_entries faults (now -ℤ l.retention) l.entries).0 })
unfolding prune
prune-entries faults now l = ground arith
