-- ===== src/Agents/Settled/Rows.antt =====
-- The rows of a run and its signals, and how a run may end (signal_agents/repo.py, service.py).
use signal_lab.Common.{
  ℕ, ◌+◌, ◌==◌, ◌≡◌, refl, sym, ap, ◌∙◌, ◌⊎◌, inl, inr, arith, true, Bool-cases, none, some, List,
  [], ◌∷◌, ◌++◌, map, All, length, length-append, if◌then◌else◌, Result, ok, err, Transaction,
}
use signal_lab.Common.Text.{Text}
use signal_lab.Common.TextSet.{is_in}
use signal_lab.Agents.Repo.{
  RunStatus, succeeded, failed, AgentRun, Signal, Db, find, create_run, finished, finish_run,
  get_run,
}
use signal_lab.Agents.Service.{Work, RunReport}

-- The lists with what was added behind them.
module _ {A : Type 0} (P : A → Type 0) where
  abbrev pub Extends : List A → ℕ → List A → Type 0
  Extends before n after = (new : List A) × (after ≡ before ++ new) × (length new ≡ n) × All P new

  append_all : (xs ys : List A) → All P xs → All P ys → All P (xs ++ ys)
  append_all [] ys h k = k
  append_all (x ∷ xs) ys h k = (h.0, append_all xs ys h.1 k)

  append_assoc : (xs ys zs : List A) → (xs ++ ys) ++ zs ≡ xs ++ (ys ++ zs)
  append_assoc [] ys zs = refl
  append_assoc (x ∷ xs) ys zs = ap (λ ws. x ∷ ws) (append_assoc xs ys zs)

  pub Extends-one :
      (before : List A) (n : ℕ) (after : List A) (x : A)
      → Extends before n after
      → P x
      → Extends before (n + 1) (after ++ x ∷ [])
  Extends-one before n after x (new, e, size, h) hx = (
    new ++ x ∷ [],
    ap (λ xs. xs ++ x ∷ []) e ∙ append_assoc before new (x ∷ []),
    omega (arith, length-append new (x ∷ []), size),
    append_all new (x ∷ []) h (hx, tt),
  )

-- A signal of this run, about a symbol of its pool.
abbrev pub Drawn : {F : Type 0} → ℕ → List Text → Signal F → Type 0
Drawn run_id symbols g = (g.run_id ≡ run_id) × (is_in g.symbol symbols ≡ true)

-- The session holds the committed tables and, not committed yet, the signals of the run.
abbrev pub Drafting : {F : Type 0} → ℕ → List Text → Db F → Work F → Type 0
Drafting run_id symbols db w =
    (w.session.committed ≡ db)
    × (w.session.current.runs ≡ db.runs)
    × Extends (Drawn run_id symbols) db.signals w.created w.session.current.signals

-- The row of a run says how it ended, and what it cost.
abbrev pub Closed : {F : Type 0} → (F → Type 0) → ℕ → RunStatus → Db F → Type 0
Closed {F = F} C id st db =
    (r : AgentRun F) × (get_run id db ≡ some r) × (r.status ≡ st) × C r.llm_cost_usd

-- A run that was started leaves nothing uncommitted. If it went through, its row says so, and its
-- signals are behind those that were there, as many as it reports; if not, there is no signal of it.
abbrev pub Outcome :
    {F : Type 0}
    → (F → Type 0)
    → ℕ
    → List Text
    → List (Signal F)
    → Result Text (RunReport F) × Transaction (Db F)
    → Type 0
Outcome {F = F} C run_id symbols before (r, s) =
    (s.current ≡ s.committed)
    × (((report : RunReport F) × (r ≡ ok report)
          × Closed (λ c. C c × (c ≡ report.llm_cost_usd)) run_id succeeded s.committed
          × Extends (Drawn run_id symbols) before report.signals s.committed.signals)
        ⊎ ((e : Text) × (r ≡ err e)
            × Closed C run_id failed s.committed
            × (s.committed.signals ≡ before)))

module _ {F : Type 0} (id : ℕ) (status : RunStatus) (cost : F) (error : Text) (now : ℕ) where
  abbrev end_of : AgentRun F → AgentRun F
  end_of r = if r.id == id then finished status cost error now r else r

  find_end :
      (rs : List (AgentRun F)) (x : AgentRun F)
      → (x.id == id) ≡ true
      → find (λ r. r.id == id) rs ≡ none
      → find (λ r. r.id == id) (map end_of (rs ++ x ∷ [])) ≡ some (finished status cost error now x)
  find_end [] x e h = rw e (rw e refl)
  find_end (r ∷ rs) x e h = elim (Bool-cases (r.id == id)) [
    | inl yes₁ ↦ absurd (ground (arith, yes₁, h))
    | inr no₁ ↦ rw no₁ (
        rw no₁ (
          find_end rs x e
            (sym (ap (λ b. if b then some r else find (λ x. x.id == id) rs) no₁) ∙ h)))
  ]

  pub closed_row :
      (zero_cost : F) (model : Text) (n : ℕ) (db₀ db : Db F)
      → get_run id db₀ ≡ none
      → db.runs ≡ (create_run zero_cost id now model n db₀).runs
      → (r : AgentRun F) × (get_run id (finish_run id status cost error now db) ≡ some r)
        × (r.status ≡ status)
        × (r.llm_cost_usd ≡ cost)
  unfolding get_run create_run finish_run
  closed_row zero_cost model n db₀ db fresh e = (
    _,
    ap (λ runs. find (λ r. r.id == id) (map end_of runs)) e
        ∙ find_end db₀.runs _ (ground arith) fresh,
    refl,
    refl,
  )
