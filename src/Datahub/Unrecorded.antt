-- ===== src/Datahub/Unrecorded.antt =====
-- What is left of a synchronisation of instruments that failed (`sync_instruments`).
use signal_lab.Common.{
  ℕ, ◌==◌, ◌≡◌, refl, ap, ◌⊎◌, inl, inr, false, List, [], ◌∷◌, map, All, length, if◌then◌else◌,
  Result, ok, err, Transaction, write,
}
use signal_lab.Common.Float.{Floats}
use signal_lab.Common.Text.{Text, codes}
use signal_lab.Datahub.Repo.{
  SyncStatus, failed, SyncRun, Detail, run_error, Db, ended, finish_sync_run, start_sync_run,
  upsert_instruments,
}
use signal_lab.Datahub.Sync.{
  Provider, Fault, text_of, try_each, give_up, keep_instruments, with_instruments, sync_instruments,
}

module _ (id now : ℕ) (status : SyncStatus) (detail : Detail) where
  same_runs :
      (runs : List SyncRun)
      → All (λ r. (r.id == id) ≡ false) runs
      → map (λ r. if r.id == id then ended status now detail r else r) runs ≡ runs
  same_runs [] h = refl
  same_runs (r ∷ runs) h = rw (h.0, same_runs runs h.1) refl

-- The tables are stored as they were before.
abbrev pub AsBefore : {F : Type 0} → Db F → Transaction (Db F) → Type 0
AsBefore db s = (s.current ≡ db) × (s.committed ≡ db)

module _ {F : Type 0} ⦃fl : Floats F⦄ (providers : List (Provider F)) (now id : ℕ) where
  give_up-AsBefore :
      (e : Text) (s : Transaction (Db F))
      → All (λ r. (r.id == id) ≡ false) s.committed.runs
      → AsBefore s.committed (give_up providers now id e s).1
  unfolding finish_sync_run
  give_up-AsBefore e s fresh =
      let same =
        ap (λ runs. record (s.committed) { runs = runs })
          (same_runs id now failed (run_error e) s.committed.runs fresh) in
      (same, same)

  abbrev pub Tried : Db F → Result Text (ℕ × Text) → Transaction (Db F) → Type 0
  Tried db r t =
      ((n : ℕ) × (source : Text) × (r ≡ ok (n, source)) × (t.current ≡ t.committed))
      ⊎ ((e : Text) × (r ≡ err e) × (t.current ≡ db) × (t.committed ≡ db))

  keep_instruments-Tried :
      (n : ℕ) (source : Text) (r : Result Text (Db F)) (s : Transaction (Db F))
      → All (λ r. (r.id == id) ≡ false) s.committed.runs
      → let p = keep_instruments providers now id n source r s in Tried s.committed p.0 p.1
  keep_instruments-Tried n source (ok db) s fresh = inl (n, source, refl, refl)
  keep_instruments-Tried n source (err e) s fresh =
      let kept = give_up-AsBefore e s fresh in inr (e, refl, kept.0, kept.1)

  with_instruments-Tried :
      (r : Result Fault (List (Text × Text × Text) × Text)) (s : Transaction (Db F))
      → All (λ r. (r.id == id) ≡ false) s.committed.runs
      → let p = with_instruments providers now id r s in Tried s.committed p.0 p.1
  with_instruments-Tried (ok (rows, source)) s fresh =
      keep_instruments-Tried (length rows) source (upsert_instruments now rows s.current) s fresh
  with_instruments-Tried (err e) s fresh =
      let kept = give_up-AsBefore (text_of e) s fresh in inr (text_of e, refl, kept.0, kept.1)

  -- A synchronisation of the instruments either goes through and is committed, or raises, and then
  -- the tables are as they were before: not even the failed run is stored.
  pub sync_instruments_unrecorded :
      (s : Transaction (Db F))
      → All (λ r. (r.id == id) ≡ false) s.committed.runs
      → let r = (sync_instruments providers now id s).0 in
        let t = (sync_instruments providers now id s).1 in
        ((n : ℕ) × (source : Text) × (r ≡ ok (n, source)) × (t.current ≡ t.committed))
        ⊎ ((e : Text) × (r ≡ err e) × (t.current ≡ s.committed) × (t.committed ≡ s.committed))
  unfolding sync_instruments
  sync_instruments_unrecorded s fresh =
      with_instruments-Tried (try_each (λ p. p.fetch_instruments) providers)
        (write (start_sync_run id now (codes "instruments") []) s) fresh
