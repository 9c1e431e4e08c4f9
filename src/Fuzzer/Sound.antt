-- ===== src/Fuzzer/Sound.antt =====
-- Every run of `LLVMFuzzerTestOneInput`.
use sqlite_on_gcs_rapid.Base.{
  ℕ, ◌≡◌, refl, List, [], ◌++◌, Option, none, some, Bool-cases, ◌⊎◌, inl, inr, leb, length, slice,
  ◌-◌,
}
use sqlite_on_gcs_rapid.Status.{Result, ok, err}
use sqlite_on_gcs_rapid.Status.Returns.{Returns, done, failed}
use sqlite_on_gcs_rapid.Table.{MetadataBlock, fresh}
use sqlite_on_gcs_rapid.Mapper.{MapperOf}
use sqlite_on_gcs_rapid.Recovery.{init}
use sqlite_on_gcs_rapid.Recovery.Inputs.{Refused}
use sqlite_on_gcs_rapid.Recovery.Metadata.{IsFaithful}
use sqlite_on_gcs_rapid.Session.Requests.{
  serve_all, Sound, Sound-append, serve_all-Sound, init-serve_all-Sound,
}
use sqlite_on_gcs_rapid.Posix.{Posix, Called, returned, read_write_create, write_all}
use sqlite_on_gcs_rapid.Posix.Laws.{IsPosix}
use sqlite_on_gcs_rapid.Posix.Writes.{Partly, write_all_lem}
use sqlite_on_gcs_rapid.Local.{open_local, local_storage}
use sqlite_on_gcs_rapid.Local.Lawful.{local-IsLawful}
use sqlite_on_gcs_rapid.Vfs.{FilePath}
use sqlite_on_gcs_rapid.Fuzzer.{
  FuzzHost, commands, fallback, exercise, driven, Ended, tested, input_written, with_temp_file,
  test_one_input,
}

-- The outcomes of `mkstemp` and of an `open`.
abbrev pub Made :
    {P : Posix} (H : FuzzHost P)
    → (P.State → List ℕ → Type 0)
    → (H.State → Type 0)
    → (FilePath → H.State → Type 0)
    → Type 0
    → Option (FilePath × P.State) × H.State
    → Type 0
Made H AtEnd Clean Named F (none, h) = F × Clean h
Made H AtEnd Clean Named F (some (path, fd), h) = AtEnd fd [] × Named path h

abbrev pub OpensWith :
    (P : Posix) → (P.State → List ℕ → Type 0) → Type 0 → List ℕ → Called P.Errno P.State → Type 0
OpensWith P Holds F bs (returned s) = Holds s bs
OpensWith P Holds F bs (Called.failed e) = F

-- What is assumed of the calls on temporary files. `Clean h`: there is none. `Named path h`: the
-- only one is at `path`. `Kept path bs h`: it has the bytes `bs` too, and no descriptor is open on it.
-- `mkstemp` makes an empty file, or fails with the fault `F`; a closed file keeps its bytes, and opening it
-- gives a descriptor on them or the fault; `unlink` removes it.
pub record IsFuzzHost {P : Posix} (H : FuzzHost P) (Holds AtEnd : P.State → List ℕ → Type 0)
    (Clean : H.State → Type 0) (Named : FilePath → H.State → Type 0)
    (Kept : FilePath → List ℕ → H.State → Type 0) (F : Type 0) : Type 0 where
  pub mkstemp_lem : (h : H.State) → Clean h → Made H AtEnd Clean Named F (H.mkstemp h)
  pub close_lem :
      (path : FilePath) (fd : P.State) (h : H.State) → Named path h → Named path (H.close fd h)
  pub kept_lem :
      (path : FilePath) (fd : P.State) (bs : List ℕ) (h : H.State)
      → Named path h
      → AtEnd fd bs
      → Kept path bs (H.close fd h)
  pub files_lem :
      (path : FilePath) (bs : List ℕ) (h : H.State)
      → Kept path bs h
      → OpensWith P Holds F bs (H.files h path read_write_create)
  pub unlink_lem : (path : FilePath) (h : H.State) → Named path h → Clean (H.unlink path h)

module _ {P : Posix} {Holds AtEnd : P.State → List ℕ → Type 0}
    {Remains : P.State → List ℕ → List ℕ → Type 0} {F : Type 0}
    (posix : IsPosix P Holds AtEnd Remains F) {meta : MetadataBlock} (faithful : IsFaithful meta)
    {H : FuzzHost P} {Clean : H.State → Type 0} {Named : FilePath → H.State → Type 0}
    {Kept : FilePath → List ℕ → H.State → Type 0}
    (host : IsFuzzHost H Holds AtEnd Clean Named Kept F) where
  -- The mapper at the end: sound over the input, or `Init` has refused the input. There is none only
  -- if the system has a fault.
  abbrev pub SoundOrRefused : List ℕ → Option (MapperOf (local_storage P)) → Type 0
  SoundOrRefused input none = F
  SoundOrRefused input (some m) = Sound Holds input m ⊎ Refused (local-IsLawful posix) meta input m

  abbrev Ends : List ℕ → Ended meta H → Type 0
  Ends input r = (r.code ≡ 0) × Clean r.host × SoundOrRefused input r.mapper

  exercise-Sound :
      (input : List ℕ) (m : MapperOf (local_storage P))
      → Sound Holds input m
      → Sound Holds input (exercise meta H input m)
  unfolding exercise
  exercise-Sound input m h = elim (Bool-cases (leb 32 (length input))) [
    | inl e ↦ rw e (
        Sound-append Holds h.more (
          serve_all-Sound (local-IsLawful posix) faithful
            (commands (slice (length input - 32) 32 input)) (input ++ h.more) m h.over))
    | inr e ↦ rw e (
        Sound-append Holds h.more (
          serve_all-Sound (local-IsLawful posix) faithful (fallback m.logical_size)
            (input ++ h.more) m h.over))
  ]

  driven-Sound :
      (input : List ℕ) (r : Result (Unit {0}) × MapperOf (local_storage P))
      → Returns (λ _ m. Sound Holds input m) (λ m. Refused (local-IsLawful posix) meta input m) r
      → SoundOrRefused input (some (driven meta H input r))
  driven-Sound input (ok u, m) (done h) = inl (exercise-Sound input m h)
  driven-Sound input (err c, m) (failed h) = inr h

  init-Sound :
      (input : List ℕ) (s : P.State)
      → Holds s input
      → Returns
          (λ _ m. Sound Holds input m)
          (λ m. Refused (local-IsLawful posix) meta input m)
          (init meta (local_storage P) (record { storage = s; table = fresh }))
  unfolding serve_all
  init-Sound = init-serve_all-Sound (local-IsLawful posix) faithful []

  opened-Ends :
      (input : List ℕ) (path : FilePath) (h' : H.State) (c : Called P.Errno P.State)
      → Named path h'
      → OpensWith P Holds F input c
      → Ends input (
          tested meta H input path
            (elim c as (λ _. Result P.State) [
              | returned s ↦ ok s
              | Called.failed e ↦ err (P.errno_to_status e)
            ])
            h')
  opened-Ends input path h' (returned s) n o = (
    refl,
    host.unlink_lem path (H.close m.storage h') (host.close_lem path m.storage h' n),
    driven-Sound input (init meta (local_storage P) (record { storage = s; table = fresh }))
        (init-Sound input s o),
  )
    where
      m : MapperOf (local_storage P)
      m = driven meta H input (init meta (local_storage P) (record { storage = s; table = fresh }))
  opened-Ends input path h' (Called.failed e) n o = (refl, host.unlink_lem path h' n, o)

  tested-Ends :
      (input : List ℕ) (path : FilePath) (h h' : H.State)
      → Named path h'
      → OpensWith P Holds F input (H.files h path read_write_create)
      → Ends input
          (tested meta H input path (open_local (record P { open_file = H.files h }) path) h')
  unfolding open_local
  tested-Ends input path h h' n o = opened-Ends input path h' (H.files h path read_write_create) n o

  input_written-Ends :
      (input : List ℕ) (path : FilePath) (r : Result (Unit {0}) × P.State) (h : H.State)
      → Named path h
      → Returns (λ _ fd. AtEnd fd input) (Partly posix [] input) r
      → Ends input (input_written meta H input path r h)
  input_written-Ends input path (err c, fd) h n (failed x) =
      (refl, host.unlink_lem path (H.close fd h) (host.close_lem path fd h n), x.1)
  input_written-Ends input path (ok u, fd) h n (done a) =
      tested-Ends input path (H.close fd h) (H.close fd h) (host.close_lem path fd h n)
        (host.files_lem path input (H.close fd h) (host.kept_lem path fd input h n a))

  with_temp_file-Ends :
      (input : List ℕ) (r : Option (FilePath × P.State) × H.State)
      → Made H AtEnd Clean Named F r
      → Ends input (with_temp_file meta H input r)
  with_temp_file-Ends input (none, h) m = (refl, m.1, m.0)
  with_temp_file-Ends input (some (path, fd), h) m =
      input_written-Ends input path (write_all P input fd) h m.1
        (write_all_lem posix input fd [] m.0)

  -- Whatever the input of `LLVMFuzzerTestOneInput` is, it returns 0 and leaves no temporary file, and
  -- unless the system has a fault it makes a mapper over a file with the input, which `Init` refuses, or
  -- which at the end of all calls is sound: its table is valid, each block that it maps lies within the
  -- file, its size is within the bounds, and the file begins with the input.
  pub test_one_input-Ends :
      (input : List ℕ) (h : H.State)
      → Clean h
      → ((test_one_input meta H input h).code ≡ 0)
        × Clean (test_one_input meta H input h).host
        × SoundOrRefused input (test_one_input meta H input h).mapper
  unfolding test_one_input
  test_one_input-Ends input h c = with_temp_file-Ends input (H.mkstemp h) (host.mkstemp_lem h c)
