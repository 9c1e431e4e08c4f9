-- ===== src/Recovery/Scans.antt =====
-- The scan of the storage as a function of its bytes, and the bytes that `Sync` appends.
use sqlite_on_gcs_rapid.Base.{
  ℕ, zero, suc, ◌+◌, ◌*◌, ◌≤◌, ◌≡◌, refl, ap, ap₂, ◌∙◌, List, [], ◌∷◌, ◌++◌, Option, none, some,
  Bool, true, false, ℤ, pos, negsuc, ◌==◌, eq→==, if◌then◌else◌, length, slice, length-append,
  length-slice, slice-append_left, subst, arith,
}
use sqlite_on_gcs_rapid.Status.{ok, internal, Exec, pure, raise, lift, ◌>>=◌}
use sqlite_on_gcs_rapid.Status.Returns.{Returns, done, Returns-bind}
use sqlite_on_gcs_rapid.Storage.{Storage, IsLawful}
use sqlite_on_gcs_rapid.Table.{MetadataBlock, Table, fresh, ceil_blocks}
use sqlite_on_gcs_rapid.View.Lookup.{mapped_at-put_mapping, mapped_at-resize, mapped_at-nil}
use sqlite_on_gcs_rapid.Mapper.Syncs.{Within}
use sqlite_on_gcs_rapid.Recovery.{
  RecoveredRecord, decode_record, apply_block, apply_record, apply_records, applied_flags,
  recovered_table, scan,
}

module _ (meta : MetadataBlock) where
  -- The bytes from `off` on are `rounds` records, which are read as `rs`.
  abbrev pub Scans : List ℕ → ℕ → List RecoveredRecord → Type 0
  Scans bs off [] = Unit {0}
  Scans bs off (r ∷ rs) =
      (off + 4105 ≤ length bs)
      × (decode_record meta off (slice off 4105 bs) ≡ ok r)
      × Scans bs (off + 4105) rs

  pub Scans-append :
      (bs : List ℕ) (off : ℕ) (rs ss : List RecoveredRecord)
      → Scans bs off rs
      → Scans bs (off + length rs * 4105) ss
      → Scans bs off (rs ++ ss)
  Scans-append bs off [] ss h k =
      subst (λ o. Scans bs o ss) {x = off + 0 * 4105} {y = off} (omega arith) k
  Scans-append bs off (r ∷ rs) ss h k = (
    h.0,
    h.1,
    Scans-append bs (off + 4105) rs ss h.2 (
        subst (λ o. Scans bs o ss) {x = off + suc (length rs) * 4105}
          {y = off + 4105 + length rs * 4105} (omega arith) k),
  )

  -- More bytes at the end do not change what is read before them.
  pub Scans-more :
      (bs more : List ℕ) (off : ℕ) (rs : List RecoveredRecord)
      → Scans bs off rs
      → Scans (bs ++ more) off rs
  Scans-more bs more off [] h = tt
  Scans-more bs more off (r ∷ rs) h = (
    omega (arith, h.0, length-append bs more),
    ap (decode_record meta off) (slice-append_left off 4105 bs more h.0) ∙ h.1,
    Scans-more bs more (off + 4105) rs h.2,
  )

  -- A record knows its offset.
  offset-decode_record :
      (off : ℕ) (b : List ℕ) (r : RecoveredRecord)
      → decode_record meta off b ≡ ok r
      → r.offset ≡ off
  unfolding decode_record
  offset-decode_record off b r h = ground arith

  apply_block-Within :
      (bs : List ℕ) (z : ℤ) (off : ℕ) (k : Option ℕ) (t : Table)
      → off + 4105 ≤ length bs
      → Within bs t.logical_to_physical
      → Within bs (apply_block z off k t).logical_to_physical
  apply_block-Within bs (pos c) off k t h w b p e =
      ground (arith, mapped_at-put_mapping c (off + 8) t.logical_to_physical b, w b p)
  apply_block-Within bs (negsuc zero) off none t h w b p e = w b p e
  apply_block-Within bs (negsuc zero) off (some n) t h w b p e =
      ground (arith, mapped_at-resize (ceil_blocks n) t.logical_to_physical b, w b p)
  apply_block-Within bs (negsuc (suc _)) off k t h w b p e = w b p e

  apply_records-Within :
      (bs : List ℕ) (off : ℕ) (rs : List RecoveredRecord) (fs : List Bool) (t : Table)
      → Scans bs off rs
      → Within bs t.logical_to_physical
      → Within bs (apply_records rs fs t).logical_to_physical
  unfolding apply_records apply_record
  apply_records-Within bs off [] fs t h w = w
  apply_records-Within bs off (r ∷ rs) [] t h w = w
  apply_records-Within bs off (r ∷ rs) (true ∷ fs) t h w =
      apply_records-Within bs (off + 4105) rs fs (apply_record r t) h.2 (
        apply_block-Within bs r.block_index r.offset r.new_size t
          (omega (arith, h.0, offset-decode_record off (slice off 4105 bs) r h.1)) w)
  apply_records-Within bs off (r ∷ rs) (false ∷ fs) t h w =
      apply_records-Within bs (off + 4105) rs fs t h.2 w

  -- For a storage that decodes as the records `rs`, each block that the recovery maps lies with all
  -- its 4096 bytes within the storage.
  pub recovered_table-Within :
      (bs : List ℕ) (rs : List RecoveredRecord)
      → Scans bs 0 rs
      → Within bs (recovered_table rs fresh).logical_to_physical
  unfolding recovered_table
  recovered_table-Within bs rs h =
      apply_records-Within bs 0 rs (applied_flags rs) fresh h (λ b p e. cc (mapped_at-nil b))

module _ {S : Storage} {Holds : S.State → List ℕ → Type 0} {F : Type 0}
    (lawful : IsLawful S Holds F) (meta : MetadataBlock) where
  pub scan_lem :
      (rs : List RecoveredRecord) (off : ℕ) (bs : List ℕ) (s : S.State)
      → Scans meta bs off rs
      → Holds s bs
      → Returns
          (λ r s'. (r ≡ rs) × Holds s' bs)
          (λ s'. F × Holds s' bs)
          (scan meta S (length rs) off s)
  unfolding scan
  scan_lem [] off bs s h k = done (refl, k)
  scan_lem (r ∷ rs) off bs s h k =
      Returns-bind (S.pread 4105 (pos off))
        (λ buf. checked buf >>= λ x. scan meta S (length rs) (off + 4105) >>= λ xs. pure (x ∷ xs)) s
        (lawful.pread_lem 4105 off s k h.0)
        (λ buf s' q.
          Returns-bind (checked buf)
            (λ x. scan meta S (length rs) (off + 4105) >>= λ xs. pure (x ∷ xs)) s'
            (checked_lem buf s' q.0 q.1)
            (λ x s'' p.
              Returns-bind (scan meta S (length rs) (off + 4105)) (λ xs. pure (x ∷ xs)) s''
                (scan_lem rs (off + 4105) bs s'' h.2 p.1) (λ xs s₃ o. done (ap₂ ◌∷◌ p.0 o.0, o.1))
                (λ s₃ e. e))
            (λ s'' e. e))
        (λ s' e. e)
    where
      checked : List ℕ → Exec S.State RecoveredRecord
      checked buf = if length buf == 4105 then lift (decode_record meta off buf) else raise internal

      checked_lem :
          (buf : List ℕ) (s' : S.State)
          → buf ≡ slice off 4105 bs
          → Holds s' bs
          → Returns (λ x s''. (x ≡ r) × Holds s'' bs) (λ s''. F × Holds s'' bs) (checked buf s')
      checked_lem buf s' e k' =
          rw
            (
              eq→== (length buf) 4105 (ap length e ∙ length-slice off 4105 bs h.0),
              ap (decode_record meta off) e ∙ h.1,
            )
            (done (refl, k'))
