-- ===== src/Recovery/Metadata.antt =====
-- The metadata of a truncation, in the recovery.
use sqlite_on_gcs_rapid.Base.{
  ℕ, ◌-◌, ◌≤◌, ◌≡◌, refl, sym, ap, ◌∙◌, List, [], ◌∷◌, ◌++◌, append_assoc, append-nil, some, ℤ, pos,
  length, slice, replicate, le→ltb, length-append, length-replicate, slice_middle, arith,
}
use sqlite_on_gcs_rapid.Record.{max_size, encode_int64, decode_int64, encode_record}
use sqlite_on_gcs_rapid.Record.Codec.{length-encode_int64, decode_int64-encode_int64}
use sqlite_on_gcs_rapid.Table.{MetadataBlock, truncate_payload}
use sqlite_on_gcs_rapid.Recovery.{parse_metadata, parse_sized, or_corrupt}

-- What is assumed of the generated class: a block with the field `new_size` set is written as some
-- text, which fits, and is read back.
pub record IsFaithful (meta : MetadataBlock) : Type 0 where
  pub text : ℕ → List ℕ
  pub serialize_lem : (n : ℕ) → n ≤ max_size → meta.serialize (pos n) ≡ some (text n)
  pub fits : (n : ℕ) → n ≤ max_size → length (text n) ≤ 4088
  pub parse_lem : (n : ℕ) → n ≤ max_size → meta.parse (text n) ≡ some (some (pos n))

pub length-truncate_payload :
    (text : List ℕ) → length text ≤ 4088 → length (truncate_payload text) ≡ 4096
unfolding truncate_payload
length-truncate_payload text h =
    length-append (encode_int64 (pos (length text))) (text ++ replicate (4088 - length text) 0)
    ∙ omega (
      arith,
      length-encode_int64 (pos (length text)),
      length-append text (replicate (4088 - length text) 0),
      length-replicate {A = ℕ} (4088 - length text) 0,
    )

module _ (z : ℤ) (text : List ℕ) (state : ℕ) (h : length text ≤ 4088) where
  abbrev buf : List ℕ
  buf = encode_record z (truncate_payload text) state

  abbrev padding : List ℕ
  padding = replicate (4088 - length text) 0

  size_field : slice 8 8 buf ≡ encode_int64 (pos (length text))
  unfolding encode_record truncate_payload
  size_field =
      ap (λ t. slice 8 8 (encode_int64 z ++ t))
        (append_assoc (encode_int64 (pos (length text))) (text ++ padding) (state ∷ []))
      ∙ slice_middle 8 8 (encode_int64 z) (encode_int64 (pos (length text)))
          ((text ++ padding) ++ state ∷ []) (length-encode_int64 z)
          (length-encode_int64 (pos (length text)))

  text_field : slice 16 (length text) buf ≡ text
  unfolding encode_record truncate_payload
  text_field =
      ap (slice 16 (length text)) regroup
      ∙ slice_middle 16 (length text) (encode_int64 z ++ encode_int64 (pos (length text))) text
          (padding ++ state ∷ [])
          (length-append (encode_int64 z) (encode_int64 (pos (length text)))
            ∙ omega (arith, length-encode_int64 z, length-encode_int64 (pos (length text))))
          refl
    where
      regroup :
          encode_int64 z ++ ((encode_int64 (pos (length text)) ++ (text ++ padding)) ++ state ∷ [])
          ≡ (encode_int64 z ++ encode_int64 (pos (length text)))
            ++ (text ++ (padding ++ state ∷ []))
      regroup = simp append_assoc

  decoded_size : decode_int64 (slice 8 8 buf) ≡ pos (length text)
  decoded_size =
      ap decode_int64 (size_field ∙ sym (append-nil (encode_int64 (pos (length text)))))
      ∙ decode_int64-encode_int64 (pos (length text)) [] (omega arith)

  -- For a text of at most 4088 bytes, the recovery of the record that a truncation writes hands
  -- exactly this text to the parser, whatever the record's block index and state.
  pub parse_metadata-encode_record :
      (meta : MetadataBlock) → parse_metadata meta buf ≡ or_corrupt (meta.parse text)
  unfolding parse_metadata
  parse_metadata-encode_record meta =
      ap (parse_sized meta buf) decoded_size
      ∙ rw (le→ltb 4088 (length text) h) (ap (λ t. or_corrupt (meta.parse t)) text_field)
