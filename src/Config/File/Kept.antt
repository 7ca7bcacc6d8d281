-- ===== src/Config/File/Kept.antt =====
-- What src/config.rs leaves in the config file, and what it reads there.
use pve_compose.Base.{◌≡◌, ◌≢◌, ◌⊎◌, Option, none, some, Text, All, ok, err}
use pve_compose.Config.{Config}
use pve_compose.Config.File.{not_found, Disk}
use pve_compose.Pct.Ran.{Ran, seen}

-- What the file system documents: a file that is there is read, one that is not is `NotFound`; a write
-- touches no other file, and is whole when it succeeds; a rename replaces the target in one step.
pub record DocumentedDisk (disk : Disk) : Type 0 where
  pub file : disk.S → Text → Option Text
  pub read_there : (p t : Text) (s : disk.S) → file s p ≡ some t → disk.read p s ≡ ok t
  pub read_missing : (p : Text) (s : disk.S) → file s p ≡ none → disk.read p s ≡ err not_found
  pub write_keeps :
      (p q t : Text) (s : disk.S)
      → q ≢ p
      → All (λ s'. file s' q ≡ file s q) (seen (disk.write p t s))
  pub write_writes :
      (p t : Text) (s : disk.S) {u : Unit {0}}
      → (disk.write p t s).result ≡ ok u
      → file (disk.write p t s).now p ≡ some t
  pub rename_replaces :
      (from to : Text) (s : disk.S)
      → All
          (λ s'. (file s' to ≡ file s to) ⊎ (file s' to ≡ file s from))
          (seen (disk.rename from to s))
  pub rename_done :
      (from to : Text) (s : disk.S) {u : Unit {0}}
      → (disk.rename from to s).result ≡ ok u
      → file (disk.rename from to s).now to ≡ file s from
