-- ===== src/Pipeline/Handlers/Deletion.antt =====
-- `on_file_deleted` of pipeline/orchestrator.py: the deletion of a file, and of what was extracted
-- from it.
use mathlib.Core.Path.{subst}
use second_brain_art.Common.{
  ℕ, zero, suc, ◌≡◌, ◌∙◌, ◌⊎◌, Option, none, some, ap, refl, Bool, true, false, List, [], ◌∷◌,
  String, str_eq, eq_iff, inl, inr, if◌then◌else◌, Bool-cases, arith,
}
use second_brain_art.Python.Sets.{is_in}
use second_brain_art.Pipeline.Rows.{TaskRow, FileRow, delete_where}
use second_brain_art.Pipeline.Queue.{has_row, remove_rows}
use second_brain_art.Pipeline.Files.{has_file, same_file, get_container_children}
use second_brain_art.Pipeline.Tasks.{Tasks}
use second_brain_art.Pipeline.World.{Env, World, remove_file}
use second_brain_art.Pipeline.Handlers.{clean, children, delete_children, on_file_deleted}

-- The path has no row in the queue, for the task, and none among the files.
pub record Absent (path name : String) (w : World) : Type 0 where
  pub unqueued : has_row path name w.queue ≡ false
  pub unknown : has_file path w.files ≡ false

has_row-remove :
    (gone path name : String) (q : List TaskRow)
    → has_row path name (remove_rows gone q)
      ≡ (if str_eq gone path then false else has_row path name q)
unfolding remove_rows delete_where has_row
has_row-remove gone path name [] = ground arith
has_row-remove gone path name (r ∷ rs) = ground (
  arith,
  has_row-remove gone path name rs,
  eq_iff r.path gone,
  eq_iff r.path path,
  eq_iff gone path,
)

has_file-delete :
    (gone path : String) (fs : List FileRow)
    → has_file path (delete_where (same_file gone) fs)
      ≡ (if str_eq gone path then false else has_file path fs)
unfolding delete_where has_file
has_file-delete gone path [] = ground arith
has_file-delete gone path (f ∷ fs) =
    ground (
      arith,
      has_file-delete gone path fs,
      eq_iff f.path gone,
      eq_iff f.path path,
      eq_iff gone path,
    )

remove_file-Absent : (path name : String) (w : World) → Absent path name (remove_file path w)
unfolding remove_file
remove_file-Absent path name w = record {
  unqueued = ground (arith, has_row-remove path path name w.queue, eq_iff path path);
  unknown = ground (arith, has_file-delete path path w.files, eq_iff path path);
}

remove_file-keeps :
    (gone path name : String) (w : World)
    → Absent path name w
    → Absent path name (remove_file gone w)
unfolding remove_file
remove_file-keeps gone path name w a = record {
  unqueued = ground (arith, has_row-remove gone path name w.queue, a.unqueued);
  unknown = ground (arith, has_file-delete gone path w.files, a.unknown);
}

-- What deletes a path keeps what is absent, absent.
record Keeps (delete : String → World → World × Bool) : Type 0 where
  pub keeps :
      (gone path name : String) (w : World)
      → Absent path name w
      → Absent path name (delete gone w).0

-- It also always gets as far as the removal of its own path.
record Removes (delete : String → World → World × Bool) : Type 0 where
  pub quiet : (path : String) (w : World) → (delete path w).1 ≡ false
  pub removes : (path name : String) (w : World) → Absent path name (delete path w).0

module _ (env : Env) (tasks : Tasks) where
  children-keep :
      (delete : String → World → World × Bool) (paths : List String) (path name : String)
      (w : World)
      → Keeps delete
      → Absent path name w
      → Absent path name (delete_children env tasks delete paths w).0
  unfolding delete_children
  children-keep delete [] path name w k a = a
  children-keep delete (p ∷ paths) path name w k a =
      let one = k.keeps p path name w a in
      elim (Bool-cases (delete p w).1) [
        | inl b ↦ rw b one
        | inr b ↦ rw b (children-keep delete paths path name (delete p w).0 k one)
      ]

  deleted-Keeps : (depth : ℕ) → Keeps (on_file_deleted env tasks depth)
  unfolding on_file_deleted
  deleted-Keeps zero = record { keeps = λ gone path name w a. a }
  deleted-Keeps (suc depth) = record {
    keeps = λ gone path name w a.
        let cleaned = clean env tasks gone w in
        let found = children env tasks gone cleaned in
        let cascaded = delete_children env tasks (on_file_deleted env tasks depth) found cleaned in
        remove_file-keeps gone path name cascaded.0 (
          children-keep (on_file_deleted env tasks depth) found path name cleaned
            (deleted-Keeps depth) (record { unqueued = a.unqueued; unknown = a.unknown }));
  }

  deleted-Removes : (depth : ℕ) → Removes (on_file_deleted env tasks (suc depth))
  unfolding on_file_deleted
  deleted-Removes depth = record {
    quiet = λ path w. refl;
    removes = λ path name w.
        let cleaned = clean env tasks path w in
        let found = children env tasks path cleaned in
        remove_file-Absent path name
          (delete_children env tasks (on_file_deleted env tasks depth) found cleaned).0;
  }

  children-removed :
      (delete : String → World → World × Bool) (paths : List String) (path name : String)
      (w : World)
      → Keeps delete
      → Removes delete
      → is_in path paths ≡ true
      → Absent path name (delete_children env tasks delete paths w).0
  unfolding delete_children is_in
  children-removed delete [] path name w k r m = absurd (ground arith)
  children-removed delete (p ∷ paths) path name w k r m =
      let after = (delete p w).0 in
      rw (r.quiet p w) (elim (Bool-cases (str_eq p path)) [
        | inl b ↦
            children-keep delete paths path name after k
              (subst (λ x. Absent x name after) ((eq_iff p path).0 b) (r.removes p name w))
        | inr b ↦ children-removed delete paths path name after k r (ground arith)
      ])

children-Absent :
    (env : Env) (tasks : Tasks) (depth : ℕ) (gone path name : String) (w : World)
    → is_in path (gone ∷ children env tasks gone (clean env tasks gone w)) ≡ true
    → Absent path name (on_file_deleted env tasks (suc (suc depth)) gone w).0
unfolding on_file_deleted is_in
children-Absent env tasks depth gone path name w m =
    let cleaned = clean env tasks gone w in
    let found = children env tasks gone cleaned in
    let delete = on_file_deleted env tasks (suc depth) in
    elim (Bool-cases (str_eq gone path)) [
      | inl b ↦
          subst (λ x. Absent x name (on_file_deleted env tasks (suc (suc depth)) gone w).0)
            ((eq_iff gone path).0 b) ((deleted-Removes env tasks (suc depth)).removes gone name w)
      | inr b ↦
          remove_file-keeps gone path name (delete_children env tasks delete found cleaned).0 (
            children-removed env tasks delete found path name cleaned
              (deleted-Keeps env tasks (suc depth)) (deleted-Removes env tasks depth)
              (ground arith))
    ]

-- The file is under the directory that another one was extracted to, by what the tables say.
pub record Extracted (env : Env) (gone path : String) (w : World) : Type 0 where
  pub dir : String
  pub extracted_to : env.extract_dir gone w.outputs ≡ some dir
  pub named : str_eq dir "" ≡ false
  pub under : is_in path (get_container_children dir w.files) ≡ true

abbrev files_under : List FileRow → Option String → List String
files_under files none = []
files_under files (some dir) = if str_eq dir "" then [] else get_container_children dir files

children-Extracted :
    (env : Env) (tasks : Tasks) (gone path : String) (w : World)
    → env.extract_dir gone (clean env tasks gone w).outputs ≡ env.extract_dir gone w.outputs
    → Extracted env gone path w
    → is_in path (children env tasks gone (clean env tasks gone w)) ≡ true
children-Extracted env tasks gone path w kept x =
    ap (λ o. is_in path (files_under w.files o)) (kept ∙ x.extracted_to) ∙ rw x.named x.under

-- After a file is deleted, neither it nor any file that get_container_children found before under the
-- directory to which it had been extracted has a row in the queue, for whichever task, or a row among
-- the files, if the rows that the deletion clears from the output tables leave it as it is which
-- directory that was (so no task writes the table of the extracted containers). Two levels of the
-- recursion are enough for this, whatever the files extracted from the extracted ones do.
pub on_file_deleted-Absent :
    (env : Env) (tasks : Tasks) (depth : ℕ) (gone path name : String) (w : World)
    → env.extract_dir gone (clean env tasks gone w).outputs ≡ env.extract_dir gone w.outputs
    → (gone ≡ path) ⊎ Extracted env gone path w
    → Absent path name (on_file_deleted env tasks (suc (suc depth)) gone w).0
unfolding is_in
on_file_deleted-Absent env tasks depth gone path name w kept (inl e) =
    children-Absent env tasks depth gone path name w (ground (arith, (eq_iff gone path).1 e))
on_file_deleted-Absent env tasks depth gone path name w kept (inr x) =
    children-Absent env tasks depth gone path name w
      (ground (arith, children-Extracted env tasks gone path w kept x))
