-- ===== src/Worker/Applied.antt =====
-- What the apply stage of internal/worker/apply.go has applied when it ends.
use vibls_assignment.Common.{
  ◌⊎◌, String, ◌≡◌, refl, sym, ap, ◌∙◌, ◌≢◌, inl, inr, Option, none, some, List, [], ◌∷◌, ◌++◌, map,
  arith, if◌then◌else◌, Bool-cases, Option-cases,
}
use vibls_assignment.Common.Text.{Bytes}
use vibls_assignment.Verification.Yaml.{refusal, Answer, answer}
use vibls_assignment.Worker.Apply.{
  Object, Patch, Change, applied, Entry, Cluster, Applied, is_manifest, wanted, apply_one, go_on,
  apply_docs, docs_of, apply_entries, with_namespace, apply_stage,
}
use mathlib.Core.List.{append_assoc, append-nil}
use mathlib.Core.Path.{fun_ext, subst}

module _ (c : Cluster) (namespace : String) where
  abbrev patch_list : Option (Object × Patch) → List Patch
  patch_list none = []
  patch_list (some (o, p)) = p ∷ []

  -- The patches that documents ask for, in order: those that are decoded, named and of a known
  -- kind.
  abbrev pub patches_of : List Bytes → List Patch
  patches_of [] = []
  patches_of (d ∷ ds) = patch_list (wanted c namespace (c.decode d)) ++ patches_of ds

  -- All documents of the manifests that can be read, file by file.
  abbrev pub all_docs : List Entry → List Bytes
  all_docs [] = []
  all_docs (e ∷ es) = (if is_manifest e then docs_of (c.read_file e.name) else []) ++ all_docs es

  -- The first of the patches were applied, in order, and all of them unless there is an error.
  pub record Applies (todo : List Patch) (before : List Change) (o : Applied) : Type 0 where
    pub done : List Patch
    pub left : List Patch
    pub split : todo ≡ done ++ left
    pub changes : o.1 ≡ before ++ map (λ p. applied p) done
    pub complete : o.0 ≡ none → left ≡ []
    pub stopped : o.0 ≢ none → left ≢ []

  go_on_assoc :
      (k l : List Change → Applied) (o : Applied)
      → go_on l (go_on k o) ≡ go_on (λ b. go_on l (k b)) o
  go_on_assoc k l (some e, b) = refl
  go_on_assoc k l (none, b) = refl

  apply_docs-append :
      (ds es : List Bytes) (before : List Change)
      → apply_docs c namespace (ds ++ es) before
        ≡ go_on (apply_docs c namespace es) (apply_docs c namespace ds before)
  unfolding apply_docs
  apply_docs-append [] es before = refl
  apply_docs-append (d ∷ ds) es before =
      let first = apply_one c namespace (wanted c namespace (c.decode d)) before in
      let ih : (λ b. apply_docs c namespace (ds ++ es) b)
          ≡ (λ b. go_on (apply_docs c namespace es) (apply_docs c namespace ds b)) =
        fun_ext (apply_docs-append ds es) in
      ap (λ (k : List Change → Applied). go_on k first) ih
      ∙ sym (go_on_assoc (apply_docs c namespace ds) (apply_docs c namespace es) first)

  apply_entries-docs :
      (es : List Entry) (before : List Change)
      → apply_entries c namespace es before ≡ apply_docs c namespace (all_docs es) before
  unfolding apply_entries apply_docs
  apply_entries-docs [] before = refl
  apply_entries-docs (e ∷ es) before =
      let ih : (λ b. apply_entries c namespace es b)
          ≡ (λ b. apply_docs c namespace (all_docs es) b) =
        fun_ext (apply_entries-docs es) in
      elim (Bool-cases (is_manifest e)) [
        | inl taken ↦
            rw (taken, ih)
              (sym (apply_docs-append (docs_of (c.read_file e.name)) (all_docs es) before))
        | inr skipped ↦ rw skipped (apply_entries-docs es before)
      ]

  refused :
      (p : Patch) (message : String) (ds : List Bytes) (before : List Change)
      → Applies (p ∷ patches_of ds) before (some message, before)
  refused p message ds before = record {
    done = [];
    left = p ∷ patches_of ds;
    split = refl;
    changes = sym (append-nil before);
    complete = λ h. cc;
    stopped = λ h e. cc;
  }

  went_on :
      (p : Patch) (ds : List Bytes) (before : List Change) {o : Applied}
      → Applies (patches_of ds) (before ++ applied p ∷ []) o
      → Applies (p ∷ patches_of ds) before o
  went_on p ds before a = record {
    done = p ∷ a.done;
    left = a.left;
    split = ap (λ (r : List Patch). p ∷ r) a.split;
    changes = a.changes ∙ append_assoc before (applied p ∷ []) _;
    complete = a.complete;
    stopped = a.stopped;
  }

  apply_docs-Applies :
      (ds : List Bytes) (before : List Change)
      → Applies (patches_of ds) before (apply_docs c namespace ds before)
  unfolding apply_docs
  apply_docs-Applies [] before = record {
    done = [];
    left = [];
    split = refl;
    changes = sym (append-nil before);
    complete = λ h. refl;
    stopped = λ h. absurd (h refl);
  }
  apply_docs-Applies (d ∷ ds) before = elim (Option-cases (wanted c namespace (c.decode d))) [
    | inl skipped ↦ rw skipped (apply_docs-Applies ds before)
    | inr ((o, p), asked) ↦ rw asked (elim (Option-cases o.marshal_error) [
      | inr (e, bad) ↦ rw bad (refused p _ ds before)
      | inl fine ↦ rw fine (elim (Option-cases (c.patch before p)) [
        | inr (e, bad) ↦ rw bad (refused p _ ds before)
        | inl patched ↦
            rw patched (went_on p ds before (apply_docs-Applies ds (before ++ applied p ∷ [])))
      ])
    ])
  ]

  -- Whatever the cluster answers, when the directory of manifests can be read: behind the
  -- namespace, if it was missing and could be created, the stage applies the patches of the
  -- documents file by file and in order, skips a file or document that it cannot use, stops at
  -- the first refusal with an error, and without an error has applied them all.
  pub apply_stage-Applies :
      (entries : List Entry) (before : List Change)
      → c.setup_error ≡ none
      → c.read_dir ≡ answer entries
      → Applies
          (patches_of (all_docs entries))
          (with_namespace c namespace before)
          (apply_stage c namespace before)
  unfolding apply_stage
  apply_stage-Applies entries before fine listed =
      let entered : apply_stage c namespace before
          ≡ apply_entries c namespace entries (with_namespace c namespace before) =
        ground (arith, fine, listed) in
      subst (Applies (patches_of (all_docs entries)) (with_namespace c namespace before))
        (sym (entered ∙ apply_entries-docs entries (with_namespace c namespace before)))
        (apply_docs-Applies (all_docs entries) (with_namespace c namespace before))

  read_cases :
      (o : Answer (List Entry))
      → ((entries : List Entry) × (o ≡ answer entries)) ⊎ ((e : Bytes) × (o ≡ refusal e))
  read_cases (answer entries) = inl (entries, refl)
  read_cases (refusal e) = inr (e, refl)

  apply_stage-read :
      (before : List Change)
      → (apply_stage c namespace before).0 ≡ none
      → (c.setup_error ≡ none) × (entries : List Entry) × (c.read_dir ≡ answer entries)
  unfolding apply_stage
  apply_stage-read before h = elim (Option-cases c.setup_error) [
    | inr (e, bad) ↦ ground (arith, h, bad)
    | inl fine ↦ elim (read_cases c.read_dir) [
      | inl (entries, listed) ↦ (fine, entries, listed)
      | inr (e, bad) ↦ ground (arith, h, fine, bad)
    ]
  ]

  all_done :
      (todo : List Patch) (before : List Change) (o : Applied)
      → Applies todo before o
      → o.0 ≡ none
      → o.1 ≡ before ++ map (λ p. applied p) todo
  all_done todo before o a h =
      let whole : todo ≡ a.done =
        a.split ∙ ap (λ (left : List Patch). a.done ++ left) (a.complete h) ∙ append-nil a.done in
      a.changes ∙ ap (λ (ps : List Patch). before ++ map (λ p. applied p) ps) (sym whole)

  -- Without an error the directory was read and all patches of its documents were applied.
  pub apply_stage-none :
      (before : List Change)
      → (apply_stage c namespace before).0 ≡ none
      → (entries : List Entry) × (c.read_dir ≡ answer entries)
        × ((apply_stage c namespace before).1
            ≡ with_namespace c namespace before
              ++ map (λ p. applied p) (patches_of (all_docs entries)))
  apply_stage-none before h =
      let (fine, entries, listed) = apply_stage-read before h in
      (
        entries,
        listed,
        all_done (patches_of (all_docs entries)) (with_namespace c namespace before)
            (apply_stage c namespace before) (apply_stage-Applies entries before fine listed) h,
      )
