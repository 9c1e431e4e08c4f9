-- ===== src/Vfs/Journals.antt =====
-- The rollback journals, which are in memory: from their `xOpen` to their `xDelete`.
use sqlite_on_gcs_rapid.Base.{
  ◌≡◌, refl, sym, ap, ◌∙◌, List, [], Option, none, some, Bool, true, false, ◌||◌, if◌then◌else◌,
  Bool-cases, inl, inr, subst,
}
use sqlite_on_gcs_rapid.Status.{Result, ok, err}
use sqlite_on_gcs_rapid.Storage.{Storage, IsLawful}
use sqlite_on_gcs_rapid.Storage.Memory.{empty, memory_storage, memory-IsLawful}
use sqlite_on_gcs_rapid.Storage.Either.{first, either_storage, EitherHolds, either-IsLawful}
use sqlite_on_gcs_rapid.Table.{MetadataBlock, fresh}
use sqlite_on_gcs_rapid.Mapper.{MapperOf}
use sqlite_on_gcs_rapid.Recovery.{init}
use sqlite_on_gcs_rapid.Recovery.Metadata.{IsFaithful}
use sqlite_on_gcs_rapid.Session.Starts.{init-new}
use sqlite_on_gcs_rapid.Vfs.{
  sqlite_ok, FilePath, same_path, contains, insert, erase, is_gcs, OpenFlags, is_journal,
  AppendOnlyFile,
}
use sqlite_on_gcs_rapid.Vfs.Calls.{Visible}
use sqlite_on_gcs_rapid.Vfs.Reopens.{OpensAs, x_open-OpensAs, same_path_refl}
use sqlite_on_gcs_rapid.Vfs.Registry.{
  World, Backends, is_foreign, make_storage, register, open_mapper, open_own, x_open, x_close,
  x_delete, x_access,
}
use sqlite_on_gcs_rapid.Vfs.Registry.Exclusive.{contains-erase}

contains-insert_same : (p : FilePath) (l : List FilePath) → contains p (insert p l) ≡ true
unfolding insert
contains-insert_same p l = elim (Bool-cases (contains p l)) [
  | inl e ↦ rw e e
  | inr e ↦ rw e (unfold contains in rw (same_path_refl p) refl)
]

or_true : (b : Bool) → (b || true) ≡ true
or_true true = refl
or_true false = refl

contains-insert_kept :
    (p q : FilePath) (l : List FilePath) → contains p l ≡ true → contains p (insert q l) ≡ true
unfolding insert
contains-insert_kept p q l h = elim (Bool-cases (contains q l)) [
  | inl e ↦ rw e h
  | inr e ↦ rw e (unfold contains in rw h (or_true (same_path q p)))
]

module _ (meta : MetadataBlock) (S : Storage) (env : Backends S) (path : FilePath) where
  journal_paths-register :
      (w : World) (r : Result (Unit {0}) × MapperOf S)
      → (register meta S env path w r).2.journal_paths ≡ w.journal_paths
  journal_paths-register w (ok u, m) = refl
  journal_paths-register w (err c, m) = refl

  module _ (flags : OpenFlags) (w : World) (plain : flags.wal ≡ false)
      (journal : is_journal flags ≡ true) (closed : contains path w.open_files ≡ false) where
    own : is_foreign path flags ≡ false
    unfolding is_foreign
    own = elim (Bool-cases (is_gcs path)) [ inl e ↦ rw e refl | inr e ↦ rw (e, journal) refl ]

    in_memory : make_storage meta S env path flags ≡ some env.memory
    unfolding make_storage
    in_memory = rw journal refl

    journal_paths-x_open :
        (x_open meta S env flags (some path) w).2.journal_paths ≡ insert path w.journal_paths
    unfolding x_open open_own open_mapper
    journal_paths-x_open =
        rw (plain, own, closed, in_memory, journal)
          (journal_paths-register (record w { journal_paths = insert path w.journal_paths })
            (init meta S (record { storage = env.memory; table = fresh })))

-- The other class, of which nothing is held: a journal never has a storage of it.
pub unheld-IsLawful : (T : Storage) → IsLawful T (λ _ _. ⊥) ⊥
unheld-IsLawful T = record {
  append_lem = λ d s h. absurd h;
  pread_lem = λ n o s h _. absurd h;
  get_size_lem = λ s h. absurd h;
  sync_lem = λ s h. absurd h;
}

module _ (meta : MetadataBlock) (S : Storage) (path : FilePath) where
  -- The name of a call is not the path.
  abbrev Differs : Option FilePath → Type 0
  Differs none = Unit {0}
  Differs (some q) = same_path q path ≡ false

  -- The world after later calls on the VFS but the `xDelete` of the path, one after another, each
  -- with answers of its own of the code behind the VFS.
  pub data Later (w : World) : World → Type 0 where
    now : Later w w
    then_opens :
        {w' : World} (env : Backends S) (flags : OpenFlags) (name : Option FilePath)
        → Later w w'
        → Later w (x_open meta S env flags name w').2
    then_closes :
        {w' : World} (env : Backends S) (file : AppendOnlyFile meta S)
        → Later w w'
        → Later w (x_close meta S env file w').1
    then_deletes :
        {w' : World} (env : Backends S) (name : Option FilePath) (sync_dir : Bool)
        → Differs name
        → Later w w'
        → Later w (x_delete meta S env name sync_dir w').1

  abbrev There : World → Type 0
  There w = contains path w.journal_paths ≡ true

  open_mapper-There :
      (env : Backends S) (q : FilePath) (w : World) (o : Option S.State)
      → There w
      → There (open_mapper meta S env q w o).2
  unfolding open_mapper
  open_mapper-There env q w none h = h
  open_mapper-There env q w (some s) h =
      ap (contains path) (
        journal_paths-register meta S env q w (init meta S (record { storage = s; table = fresh })))
      ∙ h

  open_own-There :
      (env : Backends S) (q : FilePath) (flags : OpenFlags) (w : World)
      → There w
      → There (open_own meta S env q flags w).2
  unfolding open_own
  open_own-There env q flags w h = elim (Bool-cases (contains q w.open_files)) [
    | inl e ↦ rw e h
    | inr e ↦ rw e (entered (is_journal flags) (make_storage meta S env q flags))
  ]
    where
      entered :
          (journal : Bool) (o : Option S.State)
          → There
              (open_mapper meta S env q
                (if journal then record w { journal_paths = insert q w.journal_paths } else w)
                o).2
      entered true o =
          open_mapper-There env q (record w { journal_paths = insert q w.journal_paths }) o
            (contains-insert_kept path q w.journal_paths h)
      entered false o = open_mapper-There env q w o h

  x_open-There :
      (env : Backends S) (flags : OpenFlags) (name : Option FilePath) (w : World)
      → There w
      → There (x_open meta S env flags name w).2
  unfolding x_open
  x_open-There env flags none w h = elim (Bool-cases flags.wal) [ inl e ↦ rw e h | inr e ↦ rw e h ]
  x_open-There env flags (some q) w h = elim (Bool-cases flags.wal) [
    | inl e ↦ rw e h
    | inr e ↦ rw e (elim (Bool-cases (is_foreign q flags)) [
      | inl o ↦ rw o h
      | inr o ↦ rw o (open_own-There env q flags w h)
    ])
  ]

  x_delete-There :
      (env : Backends S) (name : Option FilePath) (sync_dir : Bool) (w : World)
      → Differs name
      → There w
      → There (x_delete meta S env name sync_dir w).1
  unfolding x_delete
  x_delete-There env none sync_dir w d h = h
  x_delete-There env (some q) sync_dir w d h = elim (Bool-cases (contains q w.journal_paths)) [
    | inl e ↦ rw e (contains-erase path q w.journal_paths ∙ rw d h)
    | inr e ↦ rw e (elim (Bool-cases (is_gcs q)) [ inl g ↦ rw g h | inr g ↦ rw g h ])
  ]

  Later-There : {w w' : World} → There w → Later w w' → There w'
  unfolding x_close
  Later-There h now = h
  Later-There h (then_opens {w'} env flags name l) =
      x_open-There env flags name w' (Later-There h l)
  Later-There h (then_closes env file l) = Later-There h l
  Later-There h (then_deletes {w'} env name sync_dir d l) =
      x_delete-There env name sync_dir w' d (Later-There h l)

  -- The calls on a journal, whatever Cloud Storage and the default VFS answer: `xAccess` while it is
  -- there, and what `xDelete` answers and leaves.
  pub record JournalLife (w : World) : Type 0 where
    pub found :
        (env : Backends S) (exists : Bool)
        → x_access meta S env (some path) exists w ≡ (sqlite_ok, some 1)
    pub removed :
        (env : Backends S) (sync_dir : Bool)
        → x_delete meta S env (some path) sync_dir w
          ≡ (sqlite_ok, record w { journal_paths = erase path w.journal_paths })
    pub others :
        (q : FilePath)
        → contains q (erase path w.journal_paths)
          ≡ (if same_path path q then false else contains q w.journal_paths)

  There-JournalLife : (w : World) → There w → JournalLife w
  unfolding x_access x_delete
  There-JournalLife w h = record {
    found = λ env exists. rw h refl;
    removed = λ env sync_dir. rw h refl;
    others = λ q. contains-erase q path w.journal_paths;
  }

-- Let SQLite open a journal, without the WAL flag, at a path that is not open, where a new
-- InMemoryStorage is empty. `xOpen` answers SQLITE_OK with an empty file over such a storage. After
-- any later calls of xOpen, of xClose and of xDelete of other paths, one after another, and whatever
-- Cloud Storage and the default VFS answer to these and to the next call, `xAccess` says that the
-- path exists, and `xDelete` of it answers SQLITE_OK and only takes the path, and no other, out of
-- `g_in_memory_journal_paths`.
pub x_open-JournalLife :
    (T : Storage) {meta : MetadataBlock} (faithful : IsFaithful meta)
    (env : Backends (either_storage memory_storage T)) (path : FilePath) (flags : OpenFlags)
    (w w' : World)
    → env.memory ≡ first empty
    → flags.wal ≡ false
    → is_journal flags ≡ true
    → contains path w.open_files ≡ false
    → Later meta
        (either_storage memory_storage T)
        path
        (x_open meta (either_storage memory_storage T) env flags (some path) w).2
        w'
    → OpensAs
        (either-IsLawful memory-IsLawful (unheld-IsLawful T))
        faithful
        env
        path
        (Visible (either-IsLawful memory-IsLawful (unheld-IsLawful T)) faithful (λ _. 0) 0)
        (x_open meta (either_storage memory_storage T) env flags (some path) w)
      × JournalLife meta (either_storage memory_storage T) path w'
x_open-JournalLife T {meta} faithful env path flags w w' starts plain journal closed later = (
  x_open-OpensAs (either-IsLawful memory-IsLawful (unheld-IsLawful T)) faithful env path (λ _. 0) 0
      flags w env.memory plain
      (own meta (either_storage memory_storage T) env path flags w plain journal closed) closed
      (in_memory meta (either_storage memory_storage T) env path flags w plain journal closed)
      (init-new (either-IsLawful memory-IsLawful (unheld-IsLawful T)) meta env.memory (
        subst (λ s. EitherHolds memory-IsLawful (unheld-IsLawful T) s []) (sym starts)
          (record { contents = refl; counted = refl }))),
  There-JournalLife meta (either_storage memory_storage T) path w' (
      Later-There meta (either_storage memory_storage T) path
        (ap (contains path) (
            journal_paths-x_open meta (either_storage memory_storage T) env path flags w plain
              journal closed)
          ∙ contains-insert_same path w.journal_paths)
        later),
)
