-- ===== src/Tests/Reopenings.antt =====
-- A file that is opened again, and calls with any arguments, at concrete inputs.
use sqlite_on_gcs_rapid.Base.{true, false, refl, List, [], ◌∷◌, none, some, pos, negsuc}
use sqlite_on_gcs_rapid.Status.{Code, ok, err, ◌>>◌}
use sqlite_on_gcs_rapid.Status.Returns.{Returns}
use sqlite_on_gcs_rapid.Storage.Memory.{
  InMemoryStorage, empty, memory_storage, Holds, memory-IsLawful,
}
use sqlite_on_gcs_rapid.Storage.Either.{first, second, either_storage}
use sqlite_on_gcs_rapid.Table.{fresh}
use sqlite_on_gcs_rapid.Mapper.{sync}
use sqlite_on_gcs_rapid.Recovery.{init}
use sqlite_on_gcs_rapid.Recovery.Inputs.{Refused}
use sqlite_on_gcs_rapid.Session.{run, file_after, logged_total}
use sqlite_on_gcs_rapid.Session.Requests.{
  AnyCall, reads, writes, truncates, syncs, serve_all, Sound, init-serve_all-Sound,
}
use sqlite_on_gcs_rapid.Vfs.{is_gcs, starts_with, is_journal, FilePath, AppendOnlyFile}
use sqlite_on_gcs_rapid.Vfs.{cantopen, ioerr_delete, OpenFlags, contains, same_path}
use sqlite_on_gcs_rapid.Vfs.Journals.{
  JournalLife, now, then_opens, then_deletes, x_open-JournalLife,
}
use sqlite_on_gcs_rapid.Vfs.Calls.{Answers}
use sqlite_on_gcs_rapid.Vfs.Registry.{
  x_open, x_delete, Opened, World, Backends, is_foreign, make_storage,
}
use sqlite_on_gcs_rapid.Vfs.Reopens.{calls_then_sync, OpensAgain, calls_then_sync-OpensAgain}
use sqlite_on_gcs_rapid.Tests.{
  plain, plain-IsFaithful, opened_mapper, opened_mapper-Represents, calls, calls-AllInBounds,
}
use sqlite_on_gcs_rapid.Tests.Logs.{backends, database}

-- What the calls leave in the storage.
abbrev stored_file : InMemoryStorage
stored_file = ((run plain memory_storage calls >> sync memory_storage) opened_mapper).1.storage

abbrev local_backends : Backends memory_storage
local_backends = record backends { local_open = λ _. ok stored_file }

abbrev database_path : FilePath
database_path = 47 ∷ 100 ∷ []

abbrev database_file : AppendOnlyFile plain memory_storage
database_file = record { mapper = some opened_mapper; path = database_path }

abbrev database_open : World
database_open = record { open_files = database_path ∷ []; journal_paths = [] }

calls_then_sync-OpensAgain_example :
    Answers memory-IsLawful plain-IsFaithful
      (OpensAgain memory-IsLawful plain-IsFaithful local_backends database stored_file database_open
        database_path
        (file_after calls (λ _. 0))
        (logged_total calls 0))
      (calls_then_sync plain memory_storage calls database_file)
unfolding is_foreign make_storage is_gcs is_journal starts_with
calls_then_sync-OpensAgain_example =
    calls_then_sync-OpensAgain memory-IsLawful plain-IsFaithful local_backends database stored_file
      database_open database_path refl refl refl calls (λ _. 0) 0 0 database_file refl
      calls-AllInBounds (opened_mapper, refl, opened_mapper-Represents)

-- Calls that are refused among others that are not.
abbrev any_calls : List AnyCall
any_calls =
    reads 5 (negsuc 3)
    ∷ writes (1 ∷ 2 ∷ []) (pos 4095)
    ∷ syncs
    ∷ truncates (pos 5000000000)
    ∷ truncates (negsuc 0)
    ∷ reads 4096 (pos 4096)
    ∷ []

init-serve_all-Sound_example :
    Returns
      (λ _ m. Sound Holds (9 ∷ 9 ∷ []) (serve_all plain memory_storage any_calls m))
      (λ m. Refused memory-IsLawful plain (9 ∷ 9 ∷ []) m)
      (init plain memory_storage
        (record { storage = record { data_ = 9 ∷ 9 ∷ []; size_ = 2 }; table = fresh }))
init-serve_all-Sound_example =
    init-serve_all-Sound memory-IsLawful plain-IsFaithful any_calls (9 ∷ 9 ∷ [])
      (record { data_ = 9 ∷ 9 ∷ []; size_ = 2 }) (record { contents = refl; counted = refl })

abbrev journal_flags : OpenFlags
journal_flags = record database { main_db = false; main_journal = true }

abbrev journal_path : FilePath
journal_path = 47 ∷ 106 ∷ []

-- Storages of both classes; Cloud Storage and the default VFS fail.
abbrev either_backends : Backends (either_storage memory_storage memory_storage)
either_backends = record {
  memory = first empty;
  gcs_create = λ _ _. err Code.internal;
  local_open = λ _. ok (second empty);
  gcs_delete = λ _ _. err Code.internal;
  gcs_exists = λ _ _. false;
  default_open = λ _ _. cantopen;
  default_delete = λ _ _. ioerr_delete;
  default_access = λ _ _. (cantopen, none);
}

abbrev EitherOpened : Type 0
EitherOpened = Opened plain (either_storage memory_storage memory_storage) either_backends

abbrev journal_opened : EitherOpened
journal_opened =
    x_open plain (either_storage memory_storage memory_storage) either_backends journal_flags
      (some journal_path) database_open

-- Then another file is opened, and the other path deleted.
abbrev two_opened : EitherOpened
two_opened =
    x_open plain (either_storage memory_storage memory_storage) either_backends database
      (some (47 ∷ [])) journal_opened.2

x_open-JournalLife_example :
    JournalLife plain
      (either_storage memory_storage memory_storage)
      journal_path
      (x_delete plain
        (either_storage memory_storage memory_storage)
        either_backends
        (some (47 ∷ []))
        true
        two_opened.2).1
unfolding is_journal contains same_path
x_open-JournalLife_example =
    (x_open-JournalLife memory_storage plain-IsFaithful either_backends journal_path journal_flags
      database_open
      (x_delete plain (either_storage memory_storage memory_storage) either_backends
        (some (47 ∷ [])) true two_opened.2).1
      refl refl refl refl
      (then_deletes either_backends (some (47 ∷ [])) true refl
        (then_opens either_backends database (some (47 ∷ [])) now))).1
