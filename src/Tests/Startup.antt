-- ===== src/Tests/Startup.antt =====
-- The migrations and settings, at a directory of two files.
use router_x.Base.{String, true, false, none, List, [], ◌∷◌, ◌++◌, ◌≡◌, refl, ok}
use router_x.Startup.{Disk, Migrated, parse_redis_addr, migrate_entry, migrate_dir}
use router_x.Startup.Again.{LeavesRan, migrate_dir_again}

-- The texts that were run.
abbrev disk : Disk (List String)
disk = record {
  read_dir = λ dir. ok (
      record { name = "001_init.sql"; is_dir = false }
      ∷ record { name = "old"; is_dir = true }
      ∷ record { name = "002_tenant_users.sql"; is_dir = false }
      ∷ []);
  read_file = λ path. ok path;
  run = λ text e. (ok tt, e ++ text ∷ []);
  fails = λ e. (none, e);
}

abbrev empty : Migrated (List String)
empty = record { recorded = []; env = [] }

disk-LeavesRan : LeavesRan disk (λ e. e)
disk-LeavesRan = record { quiet = λ e. refl }

-- The first run.
migrated : migrate_dir disk "migrations" empty ≡ (
  ok tt,
  record {
    recorded = "001_init.sql" ∷ "002_tenant_users.sql" ∷ [];
    env = "migrations/001_init.sql" ∷ "migrations/002_tenant_users.sql" ∷ [];
  },
)
unfolding migrate_dir migrate_entry
migrated = refl

-- The second run.
migrate_dir_again_example :
    let first = (migrate_dir disk "migrations" empty).1 in
    let second =
      (migrate_dir disk "migrations" (record { recorded = first.recorded; env = [] })).1 in
    (second.recorded ≡ first.recorded) × (second.env ≡ [])
unfolding migrate_dir migrate_entry
migrate_dir_again_example =
    migrate_dir_again disk (λ e. e) disk-LeavesRan "migrations" empty [] refl

parsed : parse_redis_addr "redis://localhost:6379/0" ≡ "localhost:6379"
unfolding parse_redis_addr
parsed = refl
