-- ===== src/Startup/Again.antt =====
-- Running the migrations again.
use mathlib.Core.Path.{subst}
use router_x.Base.{
  Result-cases, String, true, ◌≡◌, refl, sym, ◌∙◌, inl, inr, Option, none, some, List, [], ◌∷◌,
  Result, ok, All, Bool-cases,
}
use router_x.Startup.{
  DirEntry, Disk, Migrated, has_file, if_missing, migrate_entry, migrate_all, migrate_listed,
  after_create, migrate_dir,
}
use router_x.Startup.Done.{
  IsDone, migrate_entry-skip, migrate_entry-if_missing, migrate_all-next, migrate_all-stop,
  after_create-IsDone,
}

module _ {E : Type 0} (disk : Disk E) where
  -- What the statements on `schema_migrations` leave alone.
  pub record LeavesRan (ran : E → List String) : Type 0 where
    pub quiet : (e : E) → ran (disk.fails e).1 ≡ ran e

  module _ (ran : E → List String) (law : LeavesRan ran) where
    -- Nothing was recorded, and no file was run.
    abbrev IsIdle : Migrated E → Result (Unit {0}) × Migrated E → Type 0
    IsIdle st r = (r.1.recorded ≡ st.recorded) × (ran r.1.env ≡ ran st.env)

    if_missing-IsIdle :
        (dir : String) (entry : DirEntry) (st : Migrated E) (x : Option String × E)
        → has_file entry.name st.recorded ≡ true
        → ran x.1 ≡ ran st.env
        → IsIdle st (if_missing disk dir entry.name st.recorded x)
    if_missing-IsIdle dir entry st (some m, e) there same = (refl, same)
    if_missing-IsIdle dir entry st (none, e) there same = rw there (refl, same)

    migrate_entry-IsIdle :
        (dir : String) (entry : DirEntry) (st : Migrated E)
        → IsDone disk st.recorded entry
        → IsIdle st (migrate_entry disk dir entry st)
    migrate_entry-IsIdle dir entry st d = elim (Bool-cases entry.is_dir) [
      | inl skipped ↦
          subst (IsIdle st) (sym (migrate_entry-skip disk dir entry st skipped)) (refl, refl)
      | inr file ↦ elim d [
        | inl skipped ↦ cc
        | inr there ↦
            subst (IsIdle st) (sym (migrate_entry-if_missing disk dir entry st file))
              (if_missing-IsIdle dir entry st (disk.fails st.env) there (law.quiet st.env))
      ]
    ]

    migrate_all-IsIdle :
        (dir : String) (entries : List DirEntry) (st : Migrated E)
        → All (IsDone disk st.recorded) entries
        → IsIdle st (migrate_all disk dir entries st)
    unfolding migrate_all
    migrate_all-IsIdle dir [] st d = (refl, refl)
    migrate_all-IsIdle dir (entry ∷ rest) st (d, ds) =
        let turn = migrate_entry-IsIdle dir entry st d in
        elim (Result-cases (migrate_entry disk dir entry st).0) [
          | inr (m, e) ↦ subst (IsIdle st) (sym (migrate_all-stop disk dir entry rest st m e)) turn
          | inl (u, e) ↦
              let st1 = (migrate_entry disk dir entry st).1 in
              let later =
                migrate_all-IsIdle dir rest st1
                  (subst (λ r. All (IsDone disk r) rest) (sym turn.0) ds) in
              subst (IsIdle st) (sym (migrate_all-next disk dir entry rest st e))
                (later.0 ∙ turn.0, later.1 ∙ turn.1)
        ]

    migrate_listed-IsIdle :
        (dir : String) (entries : List DirEntry) (listed : Result (List DirEntry)) (st : Migrated E)
        → listed ≡ ok entries
        → All (IsDone disk st.recorded) entries
        → IsIdle st (migrate_listed disk dir listed st)
    migrate_listed-IsIdle dir entries listed st e d = rw e (migrate_all-IsIdle dir entries st d)

    after_create-IsIdle :
        (dir : String) (entries : List DirEntry) (recorded : List String) (again : E)
        (x : Option String × E)
        → disk.read_dir dir ≡ ok entries
        → All (IsDone disk recorded) entries
        → ran x.1 ≡ ran again
        → IsIdle (record { recorded = recorded; env = again }) (after_create disk dir recorded x)
    after_create-IsIdle dir entries recorded again (some m, e) listed d same = (refl, same)
    after_create-IsIdle dir entries recorded again (none, e) listed d same =
        let later =
          migrate_listed-IsIdle dir entries (disk.read_dir dir)
            (record { recorded = recorded; env = e }) listed d in
        (later.0, later.1 ∙ same)

    -- After a run of the migrations that succeeded, a second one over the same directory, at any later
    -- time and whether it succeeds or not, runs no file and records none. The condition is that the
    -- statements on the table of migrations run no file.
    pub migrate_dir_again :
        (dir : String) (st : Migrated E) (again : E)
        → (migrate_dir disk dir st).0 ≡ ok tt
        → let first = (migrate_dir disk dir st).1 in
          let second =
            (migrate_dir disk dir (record { recorded = first.recorded; env = again })).1 in
          (second.recorded ≡ first.recorded) × (ran second.env ≡ ran again)
    unfolding migrate_dir
    migrate_dir_again dir st again h =
        let (entries, listed, done) =
          after_create-IsDone disk dir st.recorded (disk.fails st.env) h in
        after_create-IsIdle dir entries _ again (disk.fails again) listed done (law.quiet again)
