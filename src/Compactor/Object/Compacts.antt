-- ===== src/Compactor/Object/Compacts.antt =====
-- What `CompactGcsObject` leaves in the bucket.
use sqlite_on_gcs_rapid.Base.{
  ℕ, ◌*◌, ◌/◌, ◌≤◌, ◌≡◌, refl, sym, ap, ◌∙◌, List, [], ◌++◌, append_assoc, ◌⊎◌, Option, none, some,
  true, false, Bool-cases, inl, inr, ltb, if◌then◌else◌, subst, arith,
}
use mathlib.Core.Path.{fun_ext}
use sqlite_on_gcs_rapid.Status.{Result, ok, err}
use sqlite_on_gcs_rapid.Status.Returns.{Returns, done, failed, Returns-weaken}
use sqlite_on_gcs_rapid.Storage.{Storage, IsLawful}
use sqlite_on_gcs_rapid.Record.{max_size}
use sqlite_on_gcs_rapid.Table.{MetadataBlock, Table, fresh, ceil_blocks}
use sqlite_on_gcs_rapid.View.{file_byte}
use sqlite_on_gcs_rapid.Mapper.{MapperOf}
use sqlite_on_gcs_rapid.Recovery.{init}
use sqlite_on_gcs_rapid.Durability.{Durable}
use sqlite_on_gcs_rapid.Durability.Restart.{Reopened, init-Reopened}
use sqlite_on_gcs_rapid.Session.Refinement.{Represents}
use sqlite_on_gcs_rapid.Gcs.Status.{CloudCode, Answered, fine, fault}
use sqlite_on_gcs_rapid.Posix.{Posix, Called, OpenMode, read_write_create}
use sqlite_on_gcs_rapid.Posix.Laws.{IsPosix}
use sqlite_on_gcs_rapid.Vfs.{FilePath}
use sqlite_on_gcs_rapid.Local.{open_local, local_storage}
use sqlite_on_gcs_rapid.Local.Lawful.{local-IsLawful}
use sqlite_on_gcs_rapid.Compactor.{OutputStream, Compaction, write_compacted_records}
use sqlite_on_gcs_rapid.Compactor.Outputs.{
  IsStream, Partial, compacted, write_compacted_records_lem,
}
use sqlite_on_gcs_rapid.Compactor.Recovered.{
  shown, compacted_size, compacted_size-le, compacted-Represents,
}
use sqlite_on_gcs_rapid.Compactor.Object.{
  Client, closed, finish_upload, upload, initialised, opened, downloaded, guarded, with_temp,
  with_metadata, compact_gcs_object,
}

-- The outcome of a call of the client.
abbrev pub Fine {ℓ} : {A : Type 0} → (A → Type ℓ) → Type ℓ → Answered A → Type ℓ
Fine Q F (fine a) = Q a
Fine Q F (fault k) = F

abbrev pub Opens :
    {Errno : Type 0} {S : Type 0}
    → (S → List ℕ → Type 0)
    → Type 0
    → List ℕ
    → Called Errno S
    → Type 0
Opens Holds F bs (Called.returned s) = Holds s bs
Opens Holds F bs (Called.failed e) = F

abbrev pub Made : Type 0 → Option FilePath → Type 0
Made F none = F
Made F (some path) = Unit {0}

-- The object is as it was, or a new one has a first part of `out`.
abbrev pub Partly : {S : Type 0} → (S → ℕ → List ℕ → Type 0) → ℕ → List ℕ → List ℕ → S → Type 0
Partly Object g bs out c =
    Object c g bs
    ⊎ ((g' : ℕ) × (part : List ℕ) × (rest : List ℕ) × Object c g' part × (part ++ rest ≡ out))

-- `Object c g bs`: the object has the generation `g` and the bytes `bs`. A temporary file or a
-- download leaves it as it is. The download of a generation puts its bytes in the file. The end of a
-- stream that is good, and was opened for the generation that the object has, makes what was written
-- the object, or it fails. A `Close` that fails, and a stream that is destroyed before its end, may
-- make a first part of what was written the object. Any failure is the fault `F`. Other writers of
-- the object are excluded.
pub record IsClient {P : Posix} {O : OutputStream} (C : Client P O)
    (Object : C.State → ℕ → List ℕ → Type 0) (Holds : P.State → List ℕ → Type 0)
    (Given : O.State → List ℕ → Type 0) (F : Type 0) : Type 0 where
  pub get_object_metadata_lem :
      (c : C.State) {g : ℕ} {bs : List ℕ}
      → Object c g bs
      → Fine (λ k. k ≡ g) F (C.get_object_metadata c)
  pub mkstemp_lem :
      (c : C.State) {g : ℕ} {bs : List ℕ}
      → Object c g bs
      → Made F (C.mkstemp c).0 × Object (C.mkstemp c).1 g bs
  pub download_to_file_lem :
      (path : FilePath) (c : C.State) {g : ℕ} {bs : List ℕ}
      → Object c g bs
      → Fine
          (λ _.
            (mode : OpenMode)
            → Opens Holds F bs (C.files (C.download_to_file path g c).1 path mode))
          F
          (C.download_to_file path g c).0
        × Object (C.download_to_file path g c).1 g bs
  pub write_object_lem :
      (c : C.State) {g : ℕ} {bs : List ℕ}
      → Object c g bs
      → Given (C.write_object g c).0 [] × Object (C.write_object g c).1 g bs
  pub is_failed_lem :
      (o : O.State) → C.is_failed o ≡ true → F × ((k : CloudCode) × (C.status o ≡ some k))
  pub good_lem : (o : O.State) → C.is_failed o ≡ false → O.good o ≡ true
  pub close_lem :
      (o : O.State) (c : C.State) {g : ℕ} {bs out : List ℕ}
      → Given o out
      → O.good o ≡ true
      → Object c g bs
      → Fine
          (λ _. (g' : ℕ) × Object (C.close o c).1 g' out)
          (F × Partly Object g bs out (C.close o c).1)
          (C.close o c).0
  pub destroy_lem :
      (o : O.State) (c : C.State) {g : ℕ} {bs out : List ℕ}
      → Given o out
      → Object c g bs
      → Partly Object g bs out (C.destroy o c)
  pub remove_lem :
      (path : FilePath) (c : C.State) {g : ℕ} {bs : List ℕ}
      → Object c g bs
      → Object (C.remove path c) g bs

module _ {meta : MetadataBlock} {P : Posix} {Holds AtEnd : P.State → List ℕ → Type 0}
    {Remains : P.State → List ℕ → List ℕ → Type 0} {F : Type 0}
    (posix : IsPosix P Holds AtEnd Remains F) {O : OutputStream} {Given : O.State → List ℕ → Type 0}
    (stream : IsStream O Given F) {C : Client P O} {Object : C.State → ℕ → List ℕ → Type 0}
    (client : IsClient C Object Holds Given F) {S : Storage} {Held : S.State → List ℕ → Type 0}
    {G : Type 0} (lawful : IsLawful S Held G) {bs : List ℕ} {t : Table} {l : ℕ}
    (d : Durable meta bs t l) (fits : l ≤ max_size) (synced : t.pending_records ≡ []) where
  -- The logical file, up to the last block that the size reaches.
  abbrev file : ℕ → ℕ
  file j = if ltb (j / 4096) (ceil_blocks l) then file_byte bs t j else 0

  -- A log that shows the same file, with at most the old number of blocks.
  pub record Compacts (content : List ℕ) : Type 0 where
    pub size : ℕ
    pub below : size ≤ ceil_blocks l * 4096
    pub reopens :
        (s : S.State)
        → Held s content
        → Returns
            (λ _ m'. Represents Held meta file size size m')
            (λ _. G)
            (init meta S (record { storage = s; table = fresh }))

  -- The object is such a log.
  pub record Compacted (c : C.State) : Type 0 where
    pub generation : ℕ
    pub content : List ℕ
    pub object : Object c generation content
    pub compacts : Compacts content

  -- The object is the old log, or a first part of such a log.
  abbrev pub Left : ℕ → C.State → Type 0
  Left g c = Object c g bs ⊎ ((log : List ℕ) × Compacts log × Partly Object g bs log c)

  abbrev Ends : ℕ → Result (Unit {0}) × C.State → Type 0
  Ends g r = Returns (λ _ c. Compacted c) (λ c. F × Left g c) r

  shown-Reopened :
      (m : MapperOf (local_storage P)) → Reopened Holds meta bs t l m → shown bs m.table ≡ file
  shown-Reopened m r = fun_ext at
    where
      at : (j : ℕ) → shown bs m.table j ≡ file j
      at j = ground (arith, r.sized, r.bytes j)

  -- What a compaction of the mapper writes.
  abbrev log_of : MapperOf (local_storage P) → List ℕ
  log_of m = compacted bs m.table (ceil_blocks m.table.logical_size) 0

  reopens-compacted :
      (m : MapperOf (local_storage P)) → Reopened Holds meta bs t l m → Compacts (log_of m)
  reopens-compacted m r = record {
    size = compacted_size m.table (ceil_blocks m.table.logical_size);
    below = omega (
      arith,
      compacted_size-le bs m.table (ceil_blocks m.table.logical_size),
      ap ceil_blocks r.sized,
    );
    reopens = λ s k.
        subst
          (λ f.
            Returns
              (λ _ m'.
                Represents Held meta f (compacted_size m.table (ceil_blocks m.table.logical_size))
                  (compacted_size m.table (ceil_blocks m.table.logical_size)) m')
              (λ _. G) (init meta S (record { storage = s; table = fresh })))
          (shown-Reopened m r)
          (compacted-Represents lawful meta bs m.table s (omega (arith, r.sized, fits)) k);
  }

  closed_lem :
      (m : MapperOf (local_storage P))
      → Reopened Holds meta bs t l m
      → (g : ℕ) (r : Answered (Unit {0}) × C.State)
      → Fine (λ _. (g' : ℕ) × Object r.1 g' (log_of m)) (F × Partly Object g bs (log_of m) r.1) r.0
      → Ends g (closed meta C r)
  closed_lem m w g (fine _, c) o = done (record {
    generation = o.0;
    content = log_of m;
    object = o.1;
    compacts = reopens-compacted m w;
  })
  closed_lem m w g (fault k, c) x = failed (x.0, inr (log_of m, reopens-compacted m w, x.1))

  -- A first part of a first part.
  Partly-within :
      (g : ℕ) (out more all : List ℕ) (c : C.State)
      → out ++ more ≡ all
      → Partly Object g bs out c
      → Partly Object g bs all c
  Partly-within g out more all c e (inl o) = inl o
  Partly-within g out more all c e (inr (g', part, rest, o, h)) =
      inr (g', part, rest ++ more, o, sym (append_assoc part rest more) ∙ ap (λ x. x ++ more) h ∙ e)

  finish_upload_lem :
      (m : MapperOf (local_storage P))
      → Reopened Holds meta bs t l m
      → (c : C.State) (g : ℕ) → Object c g bs
      → (r : Result (Unit {0}) × Compaction (local_storage P) O)
      → Returns
          (λ _ p. Given p.1 (log_of m) × (O.good p.1 ≡ true))
          (λ p. F × Partial Given [] (log_of m) p.1)
          r
      → Ends g (finish_upload meta C c r)
  finish_upload_lem m w c g o (err e, p) (failed x) = failed (
    x.0,
    inr (
      log_of m,
      reopens-compacted m w,
      Partly-within g x.1.0 x.1.1 (log_of m) (C.destroy p.1 c) x.1.3
          (client.destroy_lem p.1 c x.1.2 o),
    ),
  )
  finish_upload_lem m w c g o (ok _, p) (done k) =
      closed_lem m w g (C.close p.1 c) (client.close_lem p.1 c k.0 k.1 o)

  upload_lem :
      (m : MapperOf (local_storage P))
      → Reopened Holds meta bs t l m
      → (r : O.State × C.State) (g : ℕ) → Given r.0 []
      → Object r.1 g bs
      → Ends g (upload meta C m r)
  upload_lem m w r g k o = elim (Bool-cases (C.is_failed r.0)) [
    | inl e ↦
        let x : F × ((k : CloudCode) × (C.status r.0 ≡ some k)) = client.is_failed_lem r.0 e in
        rw (e, x.1.1)
          (failed (
            x.0,
            inr (
              log_of m,
              reopens-compacted m w,
              Partly-within g [] (log_of m) (log_of m) (C.destroy r.0 r.1) refl
                  (client.destroy_lem r.0 r.1 k o),
            ),
          ))
    | inr e ↦ rw e (
        finish_upload_lem m w r.1 g o (write_compacted_records (local_storage P) O (m, r.0)) (
          Returns-weaken
            (write_compacted_records_lem (local-IsLawful posix) stream w.valid (m, r.0) []
              (omega (arith, w.sized, fits))
              (record { holds = w.holds; same = refl }, k, client.good_lem r.0 e))
            (λ _ _ z. (z.1, z.2)) (λ _ z. z)))
  ]

  initialised_lem :
      (c : C.State) (g : ℕ)
      → Object c g bs
      → (r : Result (Unit {0}) × MapperOf (local_storage P))
      → Returns (λ _ m. Reopened Holds meta bs t l m) (λ _. F) r
      → Ends g (initialised meta C g c r)
  initialised_lem c g o (err e, m) (failed x) = failed (x, inl o)
  initialised_lem c g o (ok _, m) (done w) =
      upload_lem m w (C.write_object g c) g (client.write_object_lem c o).0
        (client.write_object_lem c o).1

  -- `Init` over the temporary file.
  opened-returned :
      (c : C.State) (g : ℕ)
      → Object c g bs
      → (r : Called P.Errno P.State) → Opens Holds F bs r
      → Ends g (
          opened meta C g c
            (elim r [ Called.returned s ↦ ok s | Called.failed e ↦ err (P.errno_to_status e) ]))
  opened-returned c g o (Called.returned s) h =
      initialised_lem c g o (init meta (local_storage P) (record { storage = s; table = fresh })) (
        Returns-weaken (init-Reopened (local-IsLawful posix) meta d synced s h) (λ _ _ w. w)
          (λ _ x. x.0))
  opened-returned c g o (Called.failed e) x = failed (x, inl o)

  downloaded_lem :
      (g : ℕ) (path : FilePath) (r : Answered (Unit {0}) × C.State)
      → Fine (λ _. (mode : OpenMode) → Opens Holds F bs (C.files r.1 path mode)) F r.0
        × Object r.1 g bs
      → Ends g (downloaded meta C g path r)
  unfolding open_local
  downloaded_lem g path (fault k, c) x = failed (x.0, inl x.1)
  downloaded_lem g path (fine _, c) h =
      opened-returned c g h.1 (C.files c path read_write_create) (h.0 read_write_create)

  Partly-remove :
      (g : ℕ) (out : List ℕ) (path : FilePath) (c : C.State)
      → Partly Object g bs out c
      → Partly Object g bs out (C.remove path c)
  Partly-remove g out path c (inl o) = inl (client.remove_lem path c o)
  Partly-remove g out path c (inr (g', part, rest, o, e)) =
      inr (g', part, rest, client.remove_lem path c o, e)

  Left-remove : (g : ℕ) (path : FilePath) (c : C.State) → Left g c → Left g (C.remove path c)
  Left-remove g path c (inl o) = inl (client.remove_lem path c o)
  Left-remove g path c (inr (log, k, p)) = inr (log, k, Partly-remove g log path c p)

  guarded_lem :
      (g : ℕ) (path : FilePath) (r : Result (Unit {0}) × C.State)
      → Ends g r
      → Ends g (guarded meta C path r)
  guarded_lem g path (err e, c) (failed x) = failed (x.0, Left-remove g path c x.1)
  guarded_lem g path (ok u, c) (done w) = done (record {
    generation = w.generation;
    content = w.content;
    object = client.remove_lem path c w.object;
    compacts = w.compacts;
  })

  with_temp_lem :
      (g : ℕ) (r : Option FilePath × C.State)
      → Made F r.0 × Object r.1 g bs
      → Ends g (with_temp meta C g r)
  with_temp_lem g (none, c) x = failed (x.0, inl x.1)
  with_temp_lem g (some path, c) o =
      guarded_lem g path (downloaded meta C g path (C.download_to_file path g c)) (
        downloaded_lem g path (C.download_to_file path g c)
          (client.download_to_file_lem path c o.1))

  with_metadata_lem :
      (c : C.State) (g : ℕ)
      → Object c g bs
      → (r : Answered ℕ) → Fine (λ k. k ≡ g) F r
      → Ends g (with_metadata meta C r c)
  with_metadata_lem c g o (fault k) x = failed (x, inl o)
  with_metadata_lem c g o (fine k) e =
      Returns-weaken
        (with_temp_lem k (C.mkstemp c)
          (client.mkstemp_lem c (subst (λ i. Object c i bs) (sym e) o)))
        (λ _ _ w. w) (λ c' x. (x.0, subst (λ i. Left i c') e x.1))

  -- Let the object be a log within the largest size, which a durable mapper without pending records
  -- was over, let nobody else write it, and let a stream that stops taking bytes not be good.
  -- `CompactGcsObject` replaces it by a log from which every new mapper shows the same file in every
  -- block that the size reaches, zeros behind them, and a size of at most these blocks. Only a fault
  -- of the client, the system or the stream can make it fail; then the object is the old log, or, as
  -- far as the client library makes a stream that is not closed an object, a first part of such a
  -- new log.
  pub compact_gcs_object-Compacted :
      (c : C.State) (g : ℕ)
      → Object c g bs
      → Returns (λ _ c'. Compacted c') (λ c'. F × Left g c') (compact_gcs_object meta C c)
  unfolding compact_gcs_object
  compact_gcs_object-Compacted c g o =
      with_metadata_lem c g o (C.get_object_metadata c) (client.get_object_metadata_lem c o)
