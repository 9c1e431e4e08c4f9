-- ===== src/Gcs/Writes.antt =====
-- `Append`, `Sync` and reads of what is still in the buffer.
use sqlite_on_gcs_rapid.Base.{
  ℕ, suc, ◌+◌, ◌-◌, ◌≤◌, ◌<◌, ◌≡◌, refl, sym, ap, ◌∙◌, List, [], ◌∷◌, ◌++◌, append-nil, pos, length,
  slice, take, length-append, lt→ltb, le→ltb, le→leb, ne_zero, slice_middle, arith,
}
use sqlite_on_gcs_rapid.Status.{ok, ◌>>=◌}
use sqlite_on_gcs_rapid.Gcs.Status.{fine}
use sqlite_on_gcs_rapid.Gcs.{Cloud, GcsRapidStorage, append, pread, sync}

module _ (C : Cloud) where
  -- A read within the buffer.
  pub pread-buffered :
      (n o : ℕ) (s : GcsRapidStorage C)
      → s.file_length_ - length s.buffer_ ≤ o
      → o + n ≤ s.file_length_
      → pread C n (pos o) s ≡ (ok (slice (o - (s.file_length_ - length s.buffer_)) n s.buffer_), s)
  unfolding pread
  pread-buffered n o s h k =
      rw (le→ltb s.file_length_ (o + n) k, le→leb (s.file_length_ - length s.buffer_) o h) refl

  -- What `Append` was given is read back at the offset that it returns, before any `Sync` and
  -- without a call of the client library.
  pub pread-append :
      (d : List ℕ) (s : GcsRapidStorage C)
      → length s.buffer_ ≤ s.file_length_
      → (append C d >>= λ o. pread C (length d) (pos o)) s ≡ (ok d, (append C d s).1)
  unfolding append slice take
  pread-append [] s h = pread-buffered 0 s.file_length_ s (omega arith) (omega arith)
  pread-append (x ∷ d) s h = rw (lt→ltb 0 (suc (length d)) (omega arith)) (
      pread-buffered (suc (length d)) s.file_length_ grown
        (omega (arith, length-append s.buffer_ (x ∷ d))) (omega arith)
      ∙ ap (λ e. (ok e, grown)) appended)
    where
      grown : GcsRapidStorage C
      grown = record s {
        buffer_ = s.buffer_ ++ x ∷ d;
        file_length_ = s.file_length_ + suc (length d);
      }

      appended :
          slice
            (s.file_length_ - (s.file_length_ + suc (length d) - length (s.buffer_ ++ x ∷ d)))
            (suc (length d))
            (s.buffer_ ++ x ∷ d)
          ≡ x ∷ d
      appended =
          ap
            (λ t.
              slice
                (s.file_length_ - (s.file_length_ + suc (length d) - length (s.buffer_ ++ x ∷ d)))
                (suc (length d)) (s.buffer_ ++ t))
            (sym (append-nil (x ∷ d)))
          ∙ slice_middle
              (s.file_length_ - (s.file_length_ + suc (length d) - length (s.buffer_ ++ x ∷ d)))
              (suc (length d)) s.buffer_ (x ∷ d) [] (omega (arith, length-append s.buffer_ (x ∷ d)))
              refl

  -- A `Sync` that succeeds hands the whole buffer to the client library and then flushes it.
  pub sync-written :
      (s : GcsRapidStorage C) (written flushed : C.State)
      → 0 < length s.buffer_
      → C.write s.buffer_ s.cloud ≡ (fine tt, written)
      → C.flush written ≡ (fine tt, flushed)
      → sync C s ≡ (ok tt, record s { buffer_ = []; cloud = flushed })
  unfolding sync
  sync-written s written flushed h e f = rw (ne_zero (length s.buffer_) h, e, f) refl
