-- ===== src/Qemu/Log/Posix.antt =====
-- What qemu/mmio.c takes from the C library: `fopen`, `fprintf` with `fflush`, and `remove`, all on
-- the path LOGGING_FILE.
use device_driver_on_so_c.Prelude.{
  ℕ, ◌+◌, ◌≡◌, refl, Option, some, List, [], ◌∷◌, ◌++◌, ◌==◌, if◌then◌else◌, arith,
}

-- `open_log` is `fopen(LOGGING_FILE, "a")`. `logged` is what the file of that path holds, nothing
-- if there is none, and `Named disk stream` says that the stream's file is the one of that path.
-- `put` is `fprintf` of a byte and `fflush`, and may fail, as `remove_log` may. The laws are those of
-- POSIX: what is put to a file without a name does not come to the path.
pub record Files : Type 1 where
  pub Disk : Type 0
  pub Stream : Type 0
  pub open_log : Disk → Option Stream × Disk
  pub put : Disk → Stream → ℕ → Disk
  pub remove_log : Disk → Disk
  pub logged : Disk → List ℕ
  pub Named : Disk → Stream → Type 0
  pub open_log-Named :
      (d : Disk) (stream : Stream) → (open_log d).0 ≡ some stream → Named (open_log d).1 stream
  pub put-unnamed :
      (d : Disk) (stream : Stream) (x : ℕ)
      → ¬ Named d stream
      → (logged (put d stream x) ≡ logged d) × ¬ Named (put d stream x) stream

-- Files that take every byte and let themselves be removed: `fprintf`, `fflush` and `remove`, whose
-- results qemu/mmio.c does not look at, never fail.
pub record NeverFails (files : Files) : Type 0 where
  pub put-named :
      (d : files.Disk) (stream : files.Stream) (x : ℕ)
      → files.Named d stream
      → (files.logged (files.put d stream x) ≡ files.logged d ++ (x ∷ []))
        × files.Named (files.put d stream x) stream
  pub logged-remove_log : (d : files.Disk) → files.logged (files.remove_log d) ≡ []
  pub remove_log-Named :
      (d : files.Disk) (stream : files.Stream)
      → files.Named d stream
      → ¬ files.Named (files.remove_log d) stream

-- One path on a disk: how many files it has named before, and what the present one holds.
pub record OnePath : Type 0 where
  pub generation : ℕ
  pub content : List ℕ

abbrev put_there : OnePath → ℕ → ℕ → OnePath
put_there d stream x =
    if d.generation == stream then record d { content = d.content ++ (x ∷ []) } else d

-- Files that are only this path: a stream is the generation that it was opened in, and a stream
-- can be open in a later one only if the path was removed meanwhile.
abbrev pub one_path : Files
one_path = record {
  Disk = OnePath;
  Stream = ℕ;
  open_log = λ d. (some d.generation, d);
  put = put_there;
  remove_log = λ d. record { generation = d.generation + 1; content = [] };
  logged = λ d. d.content;
  Named = λ d stream. d.generation ≡ stream;
  open_log-Named = λ d stream e. ground arith;
  put-unnamed = λ d stream x e. ground arith;
}

pub one_path-NeverFails : NeverFails one_path
one_path-NeverFails = record {
  put-named = λ d stream x e. ground arith;
  logged-remove_log = λ d. refl;
  remove_log-Named = λ d stream e e'. omega arith;
}
