-- ===== src/Config/File/Tests.antt =====
-- An update on a disk that holds no file yet, and the theorem there.
use pve_compose.Base.{
  ◌≡◌, ◌⊎◌, refl, inl, inr, Option, none, some, Text, codes, text_eq, text_eq_ne, text_eq_refl, All,
  ok, err, Result, ◌==◌, if◌then◌else◌, Option-cases,
}
use pve_compose.Base.Dict.{Dict, lookup, insert, lookup-insert}
use pve_compose.Config.{Config, default_config}
use pve_compose.Config.File.{IoError, not_found, Disk, Yaml, comment}
use pve_compose.Config.File.Kept.{DocumentedDisk}
use pve_compose.Pct.Ran.{Ran, seen, stays}

abbrev read_of : Option Text → Result IoError Text
read_of none = err not_found
read_of (some t) = ok t

abbrev replaced : Text → Dict Text → Option Text → Ran (Dict Text) IoError (Unit {0})
replaced to s none = stays s (err not_found)
replaced to s (some t) = stays (insert to t s) (ok tt)

-- Files by their paths. The source of a rename is left there.
abbrev files : Disk
files = record {
  S = Dict Text;
  read = λ path s. read_of (lookup path s);
  write = λ path text s. stays (insert path text s) (ok tt);
  rename = λ from to s. replaced to s (lookup from s);
}

insert_here : (p t : Text) (s : Dict Text) → lookup p (insert p t s) ≡ some t
insert_here p t s = rw (lookup-insert p p t s, text_eq_refl p) refl

files-DocumentedDisk : DocumentedDisk files
files-DocumentedDisk = record {
  file = λ s path. lookup path s;
  read_there = λ p t s e. rw e refl;
  read_missing = λ p s e. rw e refl;
  write_keeps = λ p q t s differ. (rw (lookup-insert q p t s, text_eq_ne q p differ) refl, tt);
  write_writes = λ p t s h. insert_here p t s;
  rename_replaces = λ from to s. moved from to s;
  rename_done = λ from to s h. done from to s h;
}
  where
    moved :
        (from to : Text) (s : Dict Text)
        → All
            (λ s'. (lookup to s' ≡ lookup to s) ⊎ (lookup to s' ≡ lookup from s))
            (seen (files.rename from to s))
    moved from to s = elim (Option-cases (lookup from s)) [
      | inl missing ↦ rw missing (inl refl, tt)
      | inr (t, there) ↦ rw there (inr (insert_here to t s), tt)
    ]

    done :
        (from to : Text) (s : Dict Text) {u : Unit {0}}
        → (files.rename from to s).result ≡ ok u
        → lookup to (files.rename from to s).now ≡ lookup from s
    done from to s h = elim (Option-cases (lookup from s)) [
      | inl missing ↦ absurd (cc (rw missing at h))
      | inr (t, there) ↦ rw there (insert_here to t s)
    ]

abbrev three_cores : Config → Config
three_cores c = record c { defaults = record c.defaults { cores = 3 } }

abbrev chosen : Config
chosen = three_cores default_config

-- A reader of the two texts that are written here.
abbrev yaml : Yaml
yaml = record {
  from_str = λ text. some (if text_eq text comment then default_config else chosen);
  to_string = λ c. some (codes "cores: 3\n");
  same = λ a b. a.defaults.cores == b.defaults.cores;
}
