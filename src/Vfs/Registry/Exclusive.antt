-- ===== src/Vfs/Registry/Exclusive.antt =====
-- `g_open_files` against the files that SQLite holds open.
use sqlite_on_gcs_rapid.Base.{
  ℕ, suc, ◌≡◌, refl, sym, ap, ap₂, ◌∙◌, List, [], ◌∷◌, ◌++◌, Option, none, some, Bool, true, false,
  ◌||◌, ◌==◌, if◌then◌else◌, Bool-cases, inl, inr, ◌⊎◌, arith,
}
use mathlib.Core.Bool.{false≢true}
use sqlite_on_gcs_rapid.Status.{Result, ok, err}
use sqlite_on_gcs_rapid.Storage.{Storage}
use sqlite_on_gcs_rapid.Table.{MetadataBlock, fresh}
use sqlite_on_gcs_rapid.Mapper.{MapperOf}
use sqlite_on_gcs_rapid.Recovery.{init}
use sqlite_on_gcs_rapid.Vfs.{
  FilePath, same_path, contains, insert, erase, OpenFlags, is_journal, AppendOnlyFile,
}
use sqlite_on_gcs_rapid.Vfs.Registry.{
  World, Backends, is_foreign, make_storage, Opened, register, open_mapper, open_own, x_open,
  x_close, x_delete,
}

same_path→eq : (a b : FilePath) → same_path a b ≡ true → a ≡ b
unfolding same_path
same_path→eq [] [] h = refl
same_path→eq [] (y ∷ b) h = absurd (false≢true h)
same_path→eq (x ∷ a) [] h = absurd (false≢true (h))
same_path→eq (x ∷ a) (y ∷ b) h = elim (Bool-cases (x == y)) [
  | inl e ↦ ap₂ ◌∷◌ (ground (arith, e)) (same_path→eq a b (sym (rw e refl) ∙ h))
  | inr e ↦ absurd (false≢true (sym (rw e refl) ∙ h))
]

pub contains-insert :
    (p a : FilePath) (l : List FilePath)
    → contains a l ≡ false
    → contains p (insert a l) ≡ (same_path a p || contains p l)
unfolding insert contains
contains-insert p a l h = rw h refl

pub contains-erase :
    (p a : FilePath) (l : List FilePath)
    → contains p (erase a l) ≡ (if same_path a p then false else contains p l)
unfolding contains erase
contains-erase p a [] = ground arith
contains-erase p a (q ∷ l) = elim (Bool-cases (same_path q a)) [
  | inl e ↦ rw (e, contains-erase p a l) (same (Bool-cases (same_path a p)) (same_path→eq q a e))
  | inr e ↦ rw (e, contains-erase p a l) (other (Bool-cases (same_path a p)) e)
]
  where
    same :
        (same_path a p ≡ true) ⊎ (same_path a p ≡ false)
        → q ≡ a
        → (if same_path a p then false else contains p l)
          ≡ (if same_path a p then false else same_path q p || contains p l)
    same (inl f) e = rw f refl
    same (inr f) e = rw (f, ap (λ z. same_path z p) e ∙ f) refl

    other :
        (same_path a p ≡ true) ⊎ (same_path a p ≡ false)
        → same_path q a ≡ false
        → (same_path q p || (if same_path a p then false else contains p l))
          ≡ (if same_path a p then false else same_path q p || contains p l)
    other (inl f) e = rw (f, ap (same_path q) (sym (same_path→eq a p f)) ∙ e) refl
    other (inr f) e = rw f refl

-- What an insertion and a removal do to the number of open files with a path.
inserted :
    (s c : Bool)
    → (s ≡ true → c ≡ false)
    → (if s then suc (if c then 1 else 0) else (if c then 1 else 0)) ≡ (if s || c then 1 else 0)
inserted true true h = absurd (false≢true (sym (h refl)))
inserted true false h = refl
inserted false c h = refl

erased :
    (s c : Bool) (n : ℕ)
    → (if s then suc n else n) ≡ (if c then 1 else 0)
    → n ≡ (if (if s then false else c) then 1 else 0)
erased true true n h = omega (arith, h)
erased true false n h = omega (arith, h)
erased false c n h = h

module _ (meta : MetadataBlock) (S : Storage) where
  abbrev Files : Type 0
  Files = List (AppendOnlyFile meta S)

  -- How many of the files have the path `p`.
  abbrev pub count : FilePath → Files → ℕ
  count p [] = 0
  count p (f ∷ fs) = let rest = count p fs in if same_path f.path p then suc rest else rest

  -- The files that SQLite holds after an `xOpen`.
  abbrev pub held : (env : Backends S) → Opened meta S env → Files → World × Files
  held env (c, none, w) fs = (w, fs)
  held env (c, some f, w) fs = (w, f ∷ fs)

  -- The calls of SQLite, one after another, each with answers of its own of the code behind the
  -- VFS: a file is closed once, and a method of an open file keeps its path.
  pub data Step : World × Files → World × Files → Type 0 where
    opens :
        {w : World} {fs : Files} (env : Backends S) (flags : OpenFlags) (name : Option FilePath)
        → Step (w, fs) (held env (x_open meta S env flags name w) fs)
    closes :
        {w : World} (env : Backends S) (before : Files) (f : AppendOnlyFile meta S) (after : Files)
        → Step (w, before ++ f ∷ after) ((x_close meta S env f w).1, before ++ after)
    deletes :
        {w : World} {fs : Files} (env : Backends S) (name : Option FilePath) (sync_dir : Bool)
        → Step (w, fs) ((x_delete meta S env name sync_dir w).1, fs)
    uses :
        {w : World} (before : Files) (f g : AppendOnlyFile meta S) (after : Files)
        → g.path ≡ f.path
        → Step (w, before ++ f ∷ after) (w, before ++ g ∷ after)

  pub data Reachable : World × Files → Type 0 where
    start : Reachable (record { open_files = []; journal_paths = [] }, [])
    step : {p q : World × Files} → Reachable p → Step p q → Reachable q

  -- `g_open_files` has the paths of the open files, and each is open once.
  abbrev pub Tracked : World × Files → Type 0
  Tracked (w, fs) = (p : FilePath) → count p fs ≡ (if contains p w.open_files then 1 else 0)

  count-middle :
      (p : FilePath) (before : Files) (f : AppendOnlyFile meta S) (after : Files)
      → count p (before ++ f ∷ after) ≡ (
          if same_path f.path p then suc (count p (before ++ after)) else count p (before ++ after))
  count-middle p [] f after = refl
  count-middle p (g ∷ before) f after = ground (arith, count-middle p before f after)

  register-Tracked :
      (env : Backends S) (path : FilePath) (w : World) (fs : Files)
      (r : Result (Unit {0}) × MapperOf S)
      → contains path w.open_files ≡ false
      → Tracked (w, fs)
      → Tracked (held env (register meta S env path w r) fs)
  register-Tracked env path w fs (err c, m) h k = k
  register-Tracked env path w fs (ok u, m) h k = λ p.
      rw (contains-insert p path w.open_files h, k p)
        (inserted (same_path path p) (contains p w.open_files)
          (λ e. ap (λ z. contains z w.open_files) (sym (same_path→eq path p e)) ∙ h))

  open_mapper-Tracked :
      (env : Backends S) (path : FilePath) (w : World) (fs : Files) (o : Option S.State)
      → contains path w.open_files ≡ false
      → Tracked (w, fs)
      → Tracked (held env (open_mapper meta S env path w o) fs)
  unfolding open_mapper
  open_mapper-Tracked env path w fs none h k = k
  open_mapper-Tracked env path w fs (some s) h k =
      register-Tracked env path w fs (init meta S (record { storage = s; table = fresh })) h k

  open_own-Tracked :
      (env : Backends S) (path : FilePath) (flags : OpenFlags) (w : World) (fs : Files)
      → Tracked (w, fs)
      → Tracked (held env (open_own meta S env path flags w) fs)
  unfolding open_own
  open_own-Tracked env path flags w fs k = elim (Bool-cases (contains path w.open_files)) [
    | inl e ↦ rw e k
    | inr e ↦ rw e (recorded e (is_journal flags) (make_storage meta S env path flags))
  ]
    where
      recorded :
          contains path w.open_files ≡ false
          → (journal : Bool) (o : Option S.State)
          → Tracked (
              held env
                (open_mapper meta S env path
                  (if journal then record w { journal_paths = insert path w.journal_paths } else w)
                  o)
                fs)
      recorded e true o =
          open_mapper-Tracked env path (record w { journal_paths = insert path w.journal_paths }) fs
            o e k
      recorded e false o = open_mapper-Tracked env path w fs o e k

  x_open-Tracked :
      (env : Backends S) (flags : OpenFlags) (name : Option FilePath) (w : World) (fs : Files)
      → Tracked (w, fs)
      → Tracked (held env (x_open meta S env flags name w) fs)
  unfolding x_open
  x_open-Tracked env flags none w fs k = elim (Bool-cases flags.wal) [
    | inl e ↦ rw e k
    | inr e ↦ rw e k
  ]
  x_open-Tracked env flags (some path) w fs k = elim (Bool-cases flags.wal) [
    | inl e ↦ rw e k
    | inr e ↦ rw e (elim (Bool-cases (is_foreign path flags)) [
      | inl o ↦ rw o k
      | inr o ↦ rw o (open_own-Tracked env path flags w fs k)
    ])
  ]

  open_files-x_delete :
      (env : Backends S) (name : Option FilePath) (sync_dir : Bool) (w : World)
      → (x_delete meta S env name sync_dir w).1.open_files ≡ w.open_files
  unfolding x_delete
  open_files-x_delete env none sync_dir w = refl
  open_files-x_delete env (some path) sync_dir w = ground arith

  Step-Tracked : {p q : World × Files} → Tracked p → Step p q → Tracked q
  unfolding x_close x_delete
  Step-Tracked k (opens {w} {fs} env flags name) = x_open-Tracked env flags name w fs k
  Step-Tracked k (closes {w} env before f after) = λ p. rw (contains-erase p f.path w.open_files) (
      erased (same_path f.path p) (contains p w.open_files) (count p (before ++ after))
        (sym (count-middle p before f after) ∙ k p))
  Step-Tracked k (deletes {w} {fs} env name sync_dir) = λ p.
      k p ∙ ap (λ l. if contains p l then 1 else 0) (sym (open_files-x_delete env name sync_dir w))
  Step-Tracked k (uses {w} before f g after e) =
      λ p. count-middle p before g after ∙ rw e (sym (count-middle p before f after) ∙ k p)

  -- Over calls of xOpen, xClose, xDelete and of the methods of open files, one after another, each
  -- with any answers of the code behind the VFS, and where SQLite closes only files that it holds, the
  -- number of held files with a path is 1 if the path is in `g_open_files`, and 0 otherwise.
  pub Reachable-Tracked : {p : World × Files} → Reachable p → Tracked p
  unfolding contains
  Reachable-Tracked start = λ p. refl
  Reachable-Tracked (step r s) = Step-Tracked (Reachable-Tracked r) s
