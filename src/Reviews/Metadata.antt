-- ===== src/Reviews/Metadata.antt =====
-- `UpdateMetadata` and `normalizeTags` of internal/reviews/service.go.
use Prim.Native.Char.{code}
use visoraft.Prelude.{
  ℕ, ◌+◌, String, Bool, true, false, Option, none, some, List, [], ◌∷◌, ◌++◌, ◌||◌, ◌==◌, str_eq,
  ltb, length, exists, update, trim_space, rune_count, lower_is, if◌then◌else◌, ◌≡◌, refl,
}
use visoraft.Database.{
  Db, Task, Result, ok, not_found, conflict, invalid, require, or_fail, ◌>>◌, ◌>>=◌, Outcome,
  commit, has_task_id, task_of, is_awaiting_review,
}
use visoraft.Identity.{is_uuid}
use visoraft.Reviews.Evaluate.{insert_review_audit}
use visoraft.Reviews.Act.{max_version}

-- r == ',' || r == '，' || r == '\n'
abbrev separates : ℕ → Bool
separates c = c == 44 || (c == 0xff0c || c == 10)

-- The part up to the first separator, and the parts after it. Empty parts, which FieldsFunc leaves out,
-- are no tags.
unfoldable pub tag_parts : String → String × List String
tag_parts String.[] = (String.[], [])
tag_parts (String.◌∷◌ c s) =
    let rest = tag_parts s in
    if separates (code c) then (String.[], rest.0 ∷ rest.1) else (String.◌∷◌ c rest.0, rest.1)

abbrev pub add_tag : List String → String → List String
add_tag result tag =
    if str_eq tag "" || exists (str_eq tag) result then result else result ++ (tag ∷ [])

-- The inner loop.
unfoldable pub add_parts : List String → List String → List String
add_parts result [] = result
add_parts result (part ∷ parts) = add_parts (add_tag result (trim_space part)) parts

-- The outer loop.
unfoldable pub add_tags : List String → List String → List String
unfolding tag_parts add_parts
add_tags result [] = result
add_tags result (value ∷ values) =
    add_tags (add_parts result ((tag_parts value).0 ∷ (tag_parts value).1)) values

unfoldable pub normalize_tags : List String → List String
unfolding add_tags
normalize_tags raw = add_tags [] raw

pub record MetadataInput : Type 0 where
  pub title : String
  pub description : String
  pub tags : List String
  pub category : String
  pub repost_statement_version : String
  pub reason : String

unfoldable pub normalize_input : MetadataInput → MetadataInput
unfolding normalize_tags
normalize_input given = record {
  title = trim_space given.title;
  description = trim_space given.description;
  tags = normalize_tags given.tags;
  category = trim_space given.category;
  repost_statement_version = trim_space given.repost_statement_version;
  reason = trim_space given.reason;
}

-- The keys of the map `fields`.
unfoldable pub metadata_fields : MetadataInput → List String
metadata_fields input =
    (if str_eq input.title "" || ltb 200 (rune_count input.title) then "title" ∷ [] else [])
    ++ ((if ltb 20000 (rune_count input.description) then "description" ∷ [] else [])
        ++ ((if ltb 20 (length input.tags) then "tags" ∷ [] else [])
            ++ (if str_eq input.reason "" then "reason" ∷ [] else [])))

abbrev is_empty : List String → Bool
is_empty [] = true
is_empty (field ∷ fields) = false

-- strings.ToLower of the version, the current one where it is empty, and the check for the two versions.
unfoldable pub statement_version : String → String → Option String
statement_version given current =
    if (if str_eq given "" then str_eq current "brief_v1" else lower_is "brief_v1" given)
    then some "brief_v1"
    else if (if str_eq given "" then str_eq current "full_v1" else lower_is "full_v1" given)
    then some "full_v1"
    else none

abbrev pub next_version : Option ℕ → ℕ
next_version none = 1
next_version (some version) = version + 1

-- SET title, description, tags, category, repost_statement_version, updated_at, version=version+1
abbrev pub edited_task : MetadataInput → String → ℕ → Task → Task
edited_task input statement now t = record t {
  title = input.title;
  description = input.description;
  tags = input.tags;
  category = input.category;
  repost_statement_version = statement;
  updated_at = now;
  version = t.version + 1;
}

unfoldable pub insert_metadata_version : String → String → ℕ → MetadataInput → ℕ → Db → Db
insert_metadata_version version_id id version input now db = record db {
  task_metadata_versions =
      record {
        id = version_id;
        task_id = id;
        version = version;
        title = input.title;
        description = input.description;
        tags = input.tags;
        category = input.category;
        change_reason = input.reason;
        created_at = now;
      }
      ∷ db.task_metadata_versions;
}

unfoldable pub edit_metadata : (ℕ → String) → String → MetadataInput → ℕ → Db → Result Db
unfolding metadata_fields statement_version insert_metadata_version insert_review_audit
edit_metadata ids id input now db = do
  require (is_empty (metadata_fields input)) (invalid "review input is invalid")
  t ← or_fail (task_of db id) not_found
  require (is_awaiting_review t.status) (conflict "metadata_not_editable")
  statement ←
      or_fail (statement_version input.repost_statement_version t.repost_statement_version)
        (invalid "repost_statement_version")
  let version = next_version (max_version id db.task_metadata_versions)
  let inserted = insert_metadata_version (ids 0) id version input now db
  ok (
      insert_review_audit id "review.metadata.updated" now (record inserted {
        tasks = update (has_task_id id) (edited_task input statement now) db.tasks;
      }))

unfoldable pub update_metadata : (ℕ → String) → ℕ → String → MetadataInput → Db → Outcome
unfolding edit_metadata normalize_input
update_metadata ids now id given db = commit db (
    require (is_uuid id) (invalid "task id is invalid")
    >> edit_metadata ids id (normalize_input given) now db)

test_tags : normalize_tags ("a, b，a" ∷ " b \nc" ∷ []) ≡ "a" ∷ "b" ∷ "c" ∷ []
unfolding normalize_tags trim_space exists
test_tags = refl
