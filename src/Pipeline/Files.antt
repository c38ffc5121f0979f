-- ===== src/Pipeline/Files.antt =====
-- The registry of files: the methods of Database in pipeline/database.py on `files`. `LIKE` is
-- SQLite's, over ASCII.
use second_brain_art.Common.{
  ℕ, ◌+◌, Bool, true, false, ◌&&◌, ◌||◌, List, [], ◌∷◌, ◌++◌, map, String, str_eq, leb, ◌==◌,
  if◌then◌else◌,
}
use second_brain_art.Python.Numerals.{codes}
use second_brain_art.Pipeline.Rows.{FileRow, update_where, select_where}

abbrev pub same_file : String → FileRow → Bool
same_file path f = str_eq f.path path

unfoldable pub has_file : String → List FileRow → Bool
has_file path [] = false
has_file path (f ∷ fs) = same_file path f || has_file path fs

-- `upsert_file`: a file that is there keeps its name, extension, modality and source.
unfoldable pub upsert_file : ℕ → FileRow → List FileRow → List FileRow
upsert_file now f fs =
    if has_file f.path fs
    then update_where (same_file f.path) (λ old. record old { mtime = f.mtime; updated_at = now })
        fs
    else fs ++ (record f { discovered_at = now; updated_at = now } ∷ [])

abbrev pub name_of : FileRow → String
name_of f = f.path

unfoldable pub get_files_by_modality : String → List FileRow → List String
get_files_by_modality modality fs = map name_of (select_where (λ f. str_eq f.modality modality) fs)

abbrev pub stamp : FileRow → String × ℕ
stamp f = (f.path, f.mtime)

unfoldable pub get_all_files : List FileRow → List (String × ℕ)
get_all_files fs = map stamp fs

unfoldable pub get_watched_files : List FileRow → List (String × ℕ)
get_watched_files fs = map stamp (select_where (λ f. str_eq f.source "watched") fs)

abbrev fold : ℕ → ℕ
fold c = if leb 65 c && leb c 90 then c + 32 else c

-- `text LIKE pattern`: `%` stands for any text, `_` for any character, case is ignored.
unfoldable pub like : List ℕ → List ℕ → Bool
like [] [] = true
like [] (c ∷ cs) = false
like (p ∷ ps) [] = p == 37 && like ps []
like (p ∷ ps) (c ∷ cs) =
    let none_more = like ps (c ∷ cs) in
    let one_more = like (p ∷ ps) cs in
    let single = like ps cs in
    if p == 37 then none_more || one_more else (p == 95 || fold p == fold c) && single

-- `.rstrip("/\\")`
abbrev pub strip_separators : List ℕ → List ℕ
strip_separators [] = []
strip_separators (c ∷ cs) = elim (strip_separators cs) [
  | [] ↦ if c == 47 || c == 92 then [] else c ∷ []
  | d ∷ ds ↦ c ∷ d ∷ ds
]

abbrev pub is_child : List ℕ → FileRow → Bool
is_child pattern f = str_eq f.source "container" && like pattern (codes f.path)

unfoldable pub get_container_children : String → List FileRow → List String
get_container_children extract_dir fs =
    map name_of (select_where (is_child (strip_separators (codes extract_dir) ++ (37 ∷ []))) fs)
