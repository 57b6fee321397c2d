-- ===== src/Fs/Examples.antt =====
-- Runs of src/fs/fs.c on a disk with one file.
use pekar_drive.Common.{ℕ, zero, suc, ◌≡◌, refl, true, none, some, replicate, arith}
use pekar_drive.Result.{err, out_of_bounds}
use pekar_drive.Memory.{Bytes}
use pekar_drive.Memory.Strings.{codes}
use pekar_drive.Memory.Sample.{zeroed}
use pekar_drive.Fs.{Disk, put, without, System, set_path, open_read, fs_read_file}
use pekar_drive.Fs.Writes.{IsOpen}
use pekar_drive.Fs.Reads.{NoMultiple, fs_read_file-long}

abbrev pub note_path : Bytes
note_path = codes "data/note"

-- A shell that removes the note, whatever it is told.
abbrev pub sys : System
sys = record {
  readable = λ p. true;
  writable = λ p. true;
  system = λ command disk. without note_path disk;
}

pub sys-IsOpen : IsOpen sys
sys-IsOpen = record { readable = λ p. refl; writable = λ p. refl }

abbrev empty : Disk
empty path = none

abbrev pub disk : Disk
disk = put note_path (codes "hello") empty

-- A file of 101 bytes of 1.
abbrev long_disk : Disk
long_disk = put note_path (replicate 101 1) empty

pub note_located : set_path (some (codes "data")) (some (codes "note")) ≡ some note_path
unfolding set_path
note_located = refl

note_found : open_read sys note_path disk ≡ some (codes "hello")
unfolding open_read
note_found = refl

long_found : open_read sys note_path long_disk ≡ some (replicate 101 1)
unfolding open_read
long_found = refl

ones-NoMultiple : (n : ℕ) → NoMultiple (replicate n 1)
ones-NoMultiple zero = tt
ones-NoMultiple (suc n) = (refl, ones-NoMultiple n)

fs_read_file-long_example :
    fs_read_file sys (some (codes "data")) zeroed (some (codes "note")) long_disk
    ≡ err out_of_bounds
fs_read_file-long_example =
    fs_read_file-long zeroed sys (some (codes "data")) (codes "note") note_path (replicate 101 1)
      long_disk note_located long_found (ones-NoMultiple 101) (omega arith)
