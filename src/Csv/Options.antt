-- ===== src/Csv/Options.antt =====
-- crates/shpx-driver-csv/src/options.rs, and the errors of the driver. The environment is a record of
-- the variables that are set. `C` are the encodings of encoding_rs with `for_label` and UTF_8, `trim`
-- is the one of `str`, and `D` are the errors of the crates below.
use shpx.Prelude.{
  Text, codes, eq_text, is_one_of, to_ascii_lowercase, to_ascii_uppercase, ℕ, [], ◌∷◌, Option, none,
  some, Bool, true, false, Result, ok, err, if◌then◌else◌, length,
}
use shpx.Prelude.Outcome.{◌>>=◌}
use shpx.Core.Crs.{Crs}
use shpx.Core.Uri.{Uri}
use shpx.Geom.Types.{Fault}
use shpx.Cli.Driver.{ReadOpts, WriteOpts}
use shpx.Shp.Loss.{OnLoss}

pub data LossKind : Type 0 where
  binary_on_csv structured_on_csv : LossKind

pub data CsvError (D : Type 0) : Type 0 where
  raised : D → CsvError D
  bom_invalid : Text → CsvError D
  delimiter_length : ℕ → CsvError D
  has_header_invalid : Text → CsvError D
  encoding_unknown : Text → CsvError D
  header_required : CsvError D
  column_missing : Text → CsvError D
  no_geometry_column : CsvError D
  row_length : ℕ → ℕ → CsvError D
  geometry : Fault → CsvError D
  on_loss : LossKind → Text → CsvError D
  structured_unsupported : Text → CsvError D
  value_unsupported : Text → CsvError D
  after_finish : CsvError D

pub record Env : Type 0 where
  pub delimiter : Option Text
  pub has_header : Option Text
  pub geometry_column : Option Text
  pub bom : Option Text

pub data BomPolicy : Type 0 where
  auto always never : BomPolicy

pub record ResolvedReadOpts (C : Type 0) : Type 0 where
  pub delimiter : ℕ
  pub has_header : Bool
  pub geometry_column : Option Text
  pub encoding : C
  pub src_crs : Option Crs

pub record ResolvedWriteOpts (C : Type 0) : Type 0 where
  pub delimiter : ℕ
  pub bom : BomPolicy
  pub encoding : C
  pub on_loss : OnLoss
  pub overwrite : Bool

abbrev single : {D : Type 0} → Text → Result (CsvError D) ℕ
single [] = err (delimiter_length 0)
single (b ∷ []) = ok b
single (b ∷ b' ∷ rest) = err (delimiter_length (length (b ∷ b' ∷ rest)))

-- `.filter(|s| !s.is_empty())`
abbrev non_empty : Option Text → Option Text
non_empty none = none
non_empty (some []) = none
non_empty (some (b ∷ rest)) = some (b ∷ rest)

abbrev canonical_label : Text → Text → Text
canonical_label normalized trimmed =
    if is_one_of (codes "LATIN1" ∷ codes "ISO-LATIN-1" ∷ codes "ANSI" ∷ []) normalized
    then codes "ISO-8859-1"
    else if is_one_of (codes "CP1252" ∷ codes "WINDOWS-1252" ∷ codes "WIN1252" ∷ []) normalized
    then codes "windows-1252"
    else if is_one_of
        (codes "CP932"
          ∷ codes "SJIS"
          ∷ codes "SHIFTJIS"
          ∷ codes "SHIFT-JIS"
          ∷ codes "SHIFT_JIS"
          ∷ [])
        normalized
    then codes "Shift_JIS"
    else if is_one_of (codes "UTF8" ∷ codes "UTF-8" ∷ []) normalized
    then codes "UTF-8"
    else trimmed

module _ {C : Type 0} (for_label : Text → Option C) (trim : Text → Text) where
  unfoldable pub lookup_label : Text → Option C
  lookup_label label = for_label (canonical_label (to_ascii_uppercase (trim label)) (trim label))

module _ {D : Type 0} where
  unfoldable pub parse : Text → Result (CsvError D) BomPolicy
  parse raw =
      let s = to_ascii_lowercase raw in
      if eq_text (codes "auto") s
      then ok auto
      else if eq_text (codes "always") s
      then ok always
      else if eq_text (codes "never") s
      then ok never
      else err (bom_invalid s)

  -- A tab for the scheme tsv, and a comma for any other.
  unfoldable pub resolve_delimiter : Env → Uri → Result (CsvError D) ℕ
  resolve_delimiter env uri = elim env.delimiter [
    | some raw ↦ single raw
    | none ↦ ok (if eq_text (codes "tsv") uri.scheme then 9 else 44)
  ]

  unfoldable pub resolve_has_header : Env → Result (CsvError D) Bool
  resolve_has_header env = elim env.has_header [
    | none ↦ ok true
    | some raw ↦
        let s = to_ascii_lowercase raw in
        if is_one_of (codes "true" ∷ codes "1" ∷ codes "yes" ∷ []) s
        then ok true
        else if is_one_of (codes "false" ∷ codes "0" ∷ codes "no" ∷ []) s
        then ok false
        else err (has_header_invalid s)
  ]

  unfoldable pub resolve_bom : Env → Result (CsvError D) BomPolicy
  unfolding parse
  resolve_bom env = elim env.bom [ some raw ↦ parse raw | none ↦ ok auto ]

  module _ {C : Type 0} (for_label : Text → Option C) (utf_8 : C) (trim : Text → Text) where
    unfoldable pub resolve_encoding : Option Text → Result (CsvError D) C
    unfolding lookup_label
    resolve_encoding none = ok utf_8
    resolve_encoding (some s) = elim (lookup_label for_label trim s) [
      | some e ↦ ok e
      | none ↦ err (encoding_unknown s)
    ]

    unfoldable pub resolve_read : Env → Uri → ReadOpts → Result (CsvError D) (ResolvedReadOpts C)
    unfolding resolve_delimiter resolve_has_header resolve_encoding
    resolve_read env uri opts = do
      delimiter ← resolve_delimiter env uri
      has_header ← resolve_has_header env
      encoding ← resolve_encoding opts.encoding
      ok (record {
        delimiter = delimiter;
        has_header = has_header;
        geometry_column = non_empty env.geometry_column;
        encoding = encoding;
        src_crs = opts.src_crs;
      })

    unfoldable pub resolve_write : Env → Uri → WriteOpts → Result (CsvError D) (ResolvedWriteOpts C)
    unfolding resolve_delimiter resolve_bom resolve_encoding
    resolve_write env uri opts = do
      delimiter ← resolve_delimiter env uri
      bom ← resolve_bom env
      encoding ← resolve_encoding opts.encoding
      ok (record {
        delimiter = delimiter;
        bom = bom;
        encoding = encoding;
        on_loss = opts.on_loss;
        overwrite = opts.overwrite;
      })
