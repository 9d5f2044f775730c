-- ===== src/Worker/Render.antt =====
-- NewManifestStage of internal/worker/manifest.go: every template of the embedded directory is
-- rendered with the job's data and written. text/template, the embedded files and the file system
-- are outside.
use mathlib.Core.List.{append_assoc, append-nil}
use vibls_assignment.Common.{
  String, ◌≡◌, refl, sym, ap, ◌∙◌, ◌⊎◌, inl, inr, Option, none, some, List, [], ◌∷◌, ◌++◌, arith,
  ◌==◌, if◌then◌else◌, Bool-cases, Option-cases,
}
use vibls_assignment.Common.Text.{Bytes, codes, strip_prefix}
use vibls_assignment.Job.{Float64, ℤ, ResourceOverrides}
use vibls_assignment.Worker.Apply.{Entry}
use vibls_assignment.Worker.Manifest.{ManifestData, manifest_data}
use vibls_assignment.Worker.Pipeline.{join}

-- A file that is written: its directory, its name and its text.
pub record File : Type 0 where
  pub directory : String
  pub name : Bytes
  pub content : String

-- What is outside. A refusal is the text of the error that the stage returns for it.
pub record Renderer : Type 0 where
  pub make_dir : String → Option String
  pub template_dir : String ⊎ List Entry
  pub read_file : Bytes → String ⊎ String  -- the name of an entry of the directory
  pub parse : Bytes → String → Option String  -- the template's name and text
  pub fill : Bytes → String → ManifestData → String ⊎ String
  pub write_file : List File → File → Option String  -- given the files that were written before

abbrev pub Written : Type 0
Written = Option String × List File

-- strings.Replace(s, old, new, 1) for an old text that is not empty
abbrev pub replace_once : Bytes → Bytes → Bytes → Bytes
replace_once [] old new = []
replace_once (c ∷ s) old new =
    let rest = replace_once s old new in
    elim (strip_prefix old (c ∷ s)) [ some behind ↦ new ++ behind | none ↦ c ∷ rest ]

abbrev out_name : Bytes → Bytes
out_name name = replace_once name (codes ".go.tmpl") (codes ".yaml")

abbrev pub output_dir : (output_base workspace job_id : String) → String
output_dir output_base workspace job_id =
    let default = if output_base == "" then "/tmp/deploy-api/manifests" else output_base in
    let base = if workspace == "" then default else join workspace "manifests" in join base job_id

module _ (r : Renderer) where
  -- What is made of one template: an error, or its file.
  abbrev pub rendered : String → ManifestData → Bytes → String ⊎ File
  rendered directory data_value name = elim (r.read_file name) [
    | inl e ↦ inl e
    | inr text ↦ elim (r.parse name text) [
      | some e ↦ inl e
      | none ↦ elim (r.fill name text data_value) [
        | inl e ↦ inl e
        | inr content ↦
            inr (record { directory = directory; name = out_name name; content = content })
      ]
    ]
  ]

  abbrev write_then : (List File → Written) → String ⊎ File → List File → Written
  write_then k (inl e) before = (some e, before)
  write_then k (inr file) before = elim (r.write_file before file) [
    | some e ↦ (some e, before)
    | none ↦ k (before ++ file ∷ [])
  ]

  unfoldable pub write_all : String → ManifestData → List Entry → List File → Written
  write_all directory data_value [] before = (none, before)
  write_all directory data_value (e ∷ es) before =
      if e.is_dir
      then write_all directory data_value es before
      else write_then (write_all directory data_value es) (rendered directory data_value e.name)
          before

  unfoldable pub manifest_stage :
      (Float64 → ℤ)
      → (output_base job_id namespace image : String) → Option ResourceOverrides
      → (workspace : String) → List File
      → Written
  unfolding write_all manifest_data
  manifest_stage millicores output_base job_id namespace image overrides workspace before =
      let directory = output_dir output_base workspace job_id in
      elim (r.make_dir directory) [
        | some e ↦ (some e, before)
        | none ↦ elim r.template_dir [
          | inl e ↦ (some e, before)
          | inr entries ↦
              write_all directory (manifest_data millicores job_id namespace image overrides)
                entries before
        ]
      ]

  -- The files that a directory of templates stands for; `none` if one of them cannot be rendered.
  abbrev with_file : String ⊎ File → Option (List File) → Option (List File)
  with_file (inl e) files = none
  with_file (inr file) none = none
  with_file (inr file) (some files) = some (file ∷ files)

  abbrev pub all_files : String → ManifestData → List Entry → Option (List File)
  all_files directory data_value [] = some []
  all_files directory data_value (e ∷ es) =
      let rest = all_files directory data_value es in
      if e.is_dir then rest else with_file (rendered directory data_value e.name) rest

  abbrev Writes : String → ManifestData → List Entry → List File → List File → Type 0
  Writes directory data_value es before after =
      (files : List File) × (all_files directory data_value es ≡ some files)
      × (after ≡ before ++ files)

  write_then-none :
      (directory : String) (data_value : ManifestData) (es : List Entry) (x : String ⊎ File)
      (before after : List File)
      → ((b a : List File)
          → write_all directory data_value es b ≡ (none, a)
          → Writes directory data_value es b a)
      → write_then (write_all directory data_value es) x before ≡ (none, after)
      → (files : List File) × (with_file x (all_files directory data_value es) ≡ some files)
        × (after ≡ before ++ files)
  write_then-none directory data_value es (inl e) before after ih h = cc
  write_then-none directory data_value es (inr file) before after ih h =
      elim (Option-cases (r.write_file before file)) [
        | inr (e, refused) ↦ ground (arith, h, refused)
        | inl accepted ↦
            let (files, all, same) =
              ih (before ++ file ∷ []) after (rw (accepted, write_then) at h) in
            (file ∷ files, rw all refl, same ∙ append_assoc before (file ∷ []) files)
      ]

  write_all-none :
      (directory : String) (data_value : ManifestData) (es : List Entry) (before after : List File)
      → write_all directory data_value es before ≡ (none, after)
      → Writes directory data_value es before after
  unfolding write_all
  write_all-none directory data_value [] before after h =
      ([], refl, ap (λ (x : Written). x.1) (sym h) ∙ sym (append-nil before))
  write_all-none directory data_value (e ∷ es) before after h = elim (Bool-cases e.is_dir) [
    | inl folder ↦ rw folder (write_all-none directory data_value es before after (rw folder at h))
    | inr plain ↦ rw plain (
        write_then-none directory data_value es (rendered directory data_value e.name) before after
          (write_all-none directory data_value es) (rw plain at h))
  ]

  -- If the manifest stage returns no error, the output directory could be made and the templates
  -- listed, and the files that it wrote, behind what was written before, are exactly one for each
  -- template of the directory, in order, filled with the job's data.
  pub manifest_stage-none :
      (millicores : Float64 → ℤ) (output_base job_id namespace image : String)
      (overrides : Option ResourceOverrides) (workspace : String) (before after : List File)
      → manifest_stage millicores output_base job_id namespace image overrides workspace before
        ≡ (none, after)
      → (entries : List Entry) × (files : List File) × (r.make_dir
            (output_dir output_base workspace job_id)
          ≡ none)
        × (r.template_dir ≡ inr entries)
        × (all_files
              (output_dir output_base workspace job_id)
              (manifest_data millicores job_id namespace image overrides)
              entries
            ≡ some files)
        × (after ≡ before ++ files)
  unfolding manifest_stage
  manifest_stage-none millicores output_base job_id namespace image overrides workspace before after
        h =
      let directory = output_dir output_base workspace job_id in
      elim (Option-cases (r.make_dir directory)) [
        | inr (e, refused) ↦ ground (arith, h, refused)
        | inl made ↦ elim (listed r.template_dir) [
          | inl (e, refused) ↦ ground (arith, h, made, refused)
          | inr (entries, found) ↦
              let (files, all, same) =
                write_all-none directory (manifest_data millicores job_id namespace image overrides)
                  entries before after (ground (arith, h, made, found)) in
              (entries, files, made, found, all, same)
        ]
      ]
    where
      listed :
          (o : String ⊎ List Entry)
          → ((e : String) × (o ≡ inl e)) ⊎ ((entries : List Entry) × (o ≡ inr entries))
      listed (inl e) = inl (e, refl)
      listed (inr entries) = inr (entries, refl)
