-- ===== src/Startup/Done.antt =====
-- What a run of the migrations that succeeds has done.
use mathlib.Core.Path.{subst}
use router_x.Base.{
  Result-cases, String, true, false, ◌≡◌, refl, sym, ◌⊎◌, inl, inr, Option, none, some, List, [],
  ◌∷◌, ◌++◌, Result, ok, err, All, anyb-append, str_eq, eq_iff, arith, Bool-cases,
}
use router_x.Startup.{
  DirEntry, Disk, Migrated, has_file, insert_name, after_run, run_file, if_missing, migrate_entry,
  migrate_all, migrate_listed, after_create,
}

module _ {E : Type 0} (disk : Disk E) where
  -- Nothing is to be done for the entry.
  abbrev pub IsDone : List String → DirEntry → Type 0
  IsDone recorded entry = (entry.is_dir ≡ true) ⊎ (has_file entry.name recorded ≡ true)

  -- The file names that were recorded still are.
  abbrev Keeps : List String → List String → Type 0
  Keeps before after = (name : String) → has_file name before ≡ true → has_file name after ≡ true

  has_file-append : (name : String) (xs : List String) → has_file name (xs ++ name ∷ []) ≡ true
  has_file-append name xs =
      ground (arith, anyb-append (str_eq name) xs (name ∷ []), eq_iff name name)

  Keeps-append : (xs ys : List String) → Keeps xs (xs ++ ys)
  Keeps-append xs ys name h = ground (arith, anyb-append (str_eq name) xs ys)

  -- What one turn that succeeds has done.
  abbrev Done : DirEntry → List String → Result (Unit {0}) × Migrated E → Type 0
  Done entry before r = r.0 ≡ ok tt → IsDone r.1.recorded entry × Keeps before r.1.recorded

  insert_name-Done :
      (entry : DirEntry) (recorded : List String) (x : Option String × E)
      → Done entry recorded (insert_name disk entry.name recorded x)
  insert_name-Done entry recorded (some m, e) h = cc
  insert_name-Done entry recorded (none, e) h =
      (inr (has_file-append entry.name recorded), Keeps-append recorded (entry.name ∷ []))

  after_run-Done :
      (entry : DirEntry) (recorded : List String) (x : Result (Unit {0}) × E)
      → Done entry recorded (after_run disk entry.name recorded x)
  after_run-Done entry recorded (err m, e) h = cc
  after_run-Done entry recorded (ok u, e) h = insert_name-Done entry recorded (disk.fails e) h

  run_file-Done :
      (entry : DirEntry) (recorded : List String) (text : Result String) (e : E)
      → Done entry recorded (run_file disk entry.name recorded text e)
  run_file-Done entry recorded (err m) e h = cc
  run_file-Done entry recorded (ok text) e h = after_run-Done entry recorded (disk.run text e) h

  if_missing-Done :
      (dir : String) (entry : DirEntry) (recorded : List String) (x : Option String × E)
      → Done entry recorded (if_missing disk dir entry.name recorded x)
  if_missing-Done dir entry recorded (some m, e) h = cc
  if_missing-Done dir entry recorded (none, e) h =
      elim (Bool-cases (has_file entry.name recorded)) [
        | inl there ↦ rw there (inr there, λ name k. k)
        | inr missing ↦ rw missing (run_file-Done entry recorded _ e (rw missing at h))
      ]

  pub migrate_entry-skip :
      (dir : String) (entry : DirEntry) (st : Migrated E)
      → entry.is_dir ≡ true
      → migrate_entry disk dir entry st ≡ (ok tt, st)
  unfolding migrate_entry
  migrate_entry-skip dir entry st e = rw e refl

  pub migrate_entry-if_missing :
      (dir : String) (entry : DirEntry) (st : Migrated E)
      → entry.is_dir ≡ false
      → migrate_entry disk dir entry st
        ≡ if_missing disk dir entry.name st.recorded (disk.fails st.env)
  unfolding migrate_entry
  migrate_entry-if_missing dir entry st e = rw e refl

  migrate_entry-Done :
      (dir : String) (entry : DirEntry) (st : Migrated E)
      → Done entry st.recorded (migrate_entry disk dir entry st)
  migrate_entry-Done dir entry st = elim (Bool-cases entry.is_dir) [
    | inl skipped ↦
        subst (Done entry st.recorded) (sym (migrate_entry-skip dir entry st skipped))
          (λ h. (inl skipped, λ name k. k))
    | inr file ↦
        subst (Done entry st.recorded) (sym (migrate_entry-if_missing dir entry st file))
          (if_missing-Done dir entry st.recorded (disk.fails st.env))
  ]

  IsDone-Keeps :
      (before after : List String) (entry : DirEntry)
      → Keeps before after
      → IsDone before entry
      → IsDone after entry
  IsDone-Keeps before after entry k (inl d) = inl d
  IsDone-Keeps before after entry k (inr d) = inr (k entry.name d)

  pub migrate_all-next :
      (dir : String) (entry : DirEntry) (rest : List DirEntry) (st : Migrated E)
      → (migrate_entry disk dir entry st).0 ≡ ok tt
      → migrate_all disk dir (entry ∷ rest) st
        ≡ migrate_all disk dir rest (migrate_entry disk dir entry st).1
  unfolding migrate_all
  migrate_all-next dir entry rest st e = ground arith

  pub migrate_all-stop :
      (dir : String) (entry : DirEntry) (rest : List DirEntry) (st : Migrated E) (m : String)
      → (migrate_entry disk dir entry st).0 ≡ err m
      → migrate_all disk dir (entry ∷ rest) st ≡ (err m, (migrate_entry disk dir entry st).1)
  unfolding migrate_all
  migrate_all-stop dir entry rest st m e = ground arith

  migrate_all-IsDone :
      (dir : String) (entries : List DirEntry) (st : Migrated E)
      → (migrate_all disk dir entries st).0 ≡ ok tt
      → All (IsDone (migrate_all disk dir entries st).1.recorded) entries
        × Keeps st.recorded (migrate_all disk dir entries st).1.recorded
  unfolding migrate_all
  migrate_all-IsDone dir [] st h = (tt, λ name k. k)
  migrate_all-IsDone dir (entry ∷ rest) st h =
      elim (Result-cases (migrate_entry disk dir entry st).0) [
        | inr (m, e) ↦ cc (migrate_all-stop dir entry rest st m e)
        | inl (u, e) ↦
            let step = migrate_all-next dir entry rest st e in
            let st1 = (migrate_entry disk dir entry st).1 in
            let turn = migrate_entry-Done dir entry st e in
            let later = migrate_all-IsDone dir rest st1 (rw step at h) in
            subst
              (λ (r : Result (Unit {0}) × Migrated E).
                All (IsDone r.1.recorded) (entry ∷ rest) × Keeps st.recorded r.1.recorded)
              (sym step)
              (
                (IsDone-Keeps st1.recorded _ entry later.1 turn.0, later.0),
                λ name k. later.1 name (turn.1 name k),
              )
      ]

  migrate_listed-IsDone :
      (dir : String) (listed : Result (List DirEntry)) (st : Migrated E)
      → (migrate_listed disk dir listed st).0 ≡ ok tt
      → (entries : List DirEntry) × (listed ≡ ok entries)
        × All (IsDone (migrate_listed disk dir listed st).1.recorded) entries
  migrate_listed-IsDone dir (err m) st h = cc
  migrate_listed-IsDone dir (ok entries) st h =
      (entries, refl, (migrate_all-IsDone dir entries st h).0)

  pub after_create-IsDone :
      (dir : String) (recorded : List String) (x : Option String × E)
      → (after_create disk dir recorded x).0 ≡ ok tt
      → (entries : List DirEntry) × (disk.read_dir dir ≡ ok entries)
        × All (IsDone (after_create disk dir recorded x).1.recorded) entries
  after_create-IsDone dir recorded (some m, e) h = cc
  after_create-IsDone dir recorded (none, e) h =
      migrate_listed-IsDone dir (disk.read_dir dir) (record { recorded = recorded; env = e }) h
