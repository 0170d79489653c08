-- ===== src/Common/Sessions.antt =====
-- A SQLAlchemy session over tables: what it shows, and what is stored if it ends here.
pub record Transaction (D : Type 0) : Type 0 where
  pub current : D
  pub committed : D

module _ {D : Type 0} where
  abbrev pub commit : Transaction D → Transaction D
  commit s = record s { committed = s.current }

  abbrev pub rollback : Transaction D → Transaction D
  rollback s = record s { current = s.committed }

  -- A change of the tables that is not committed.
  abbrev pub write : (D → D) → Transaction D → Transaction D
  write f s = record s { current = f s.current }

  -- What holds of the tables in both places.
  abbrev pub Both : (D → Type 0) → Transaction D → Type 0
  Both P s = P s.current × P s.committed
