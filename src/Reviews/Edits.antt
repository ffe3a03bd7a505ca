-- ===== src/Reviews/Edits.antt =====
-- What an edit of a task's metadata leaves behind: its tags and its version.
use Prim.Native.Char.{Char, code}
use visoraft.Prelude.{
  ℕ, String, ◌≡◌, refl, ap, Bool, true, false, Option, none, some, List, [], ◌∷◌, ◌++◌, ◌&&◌, ◌||◌,
  not, str_eq, str_eq_iff, str_eq_refl, arith, exists, find-update_self, Bool-cases, inl, inr,
  trim_space, every, is_blank, every-trim_space, blank-trim_space, ◌==◌,
}
use visoraft.Database.{
  Db, Task, MetadataVersion, ok, Ensures, committed, Ensures-require, Ensures-or_fail, Ensures-ok,
  has_task_id, task_of, is_awaiting_review,
}
use visoraft.Reviews.Evaluate.{insert_review_audit}
use visoraft.Reviews.Act.{max_version, larger}
use visoraft.Reviews.Metadata.{
  add_tag, add_parts, add_tags, tag_parts, normalize_tags, MetadataInput, edited_task, next_version,
  insert_metadata_version, edit_metadata,
}

-- Not one of the characters at which an operator's text is split.
abbrev pub is_plain : Char → Bool
is_plain c = not (code c == 44 || (code c == 0xff0c || code c == 10))

-- A text with more than white space in it, and without a separator.
abbrev pub is_tag : String → Bool
is_tag tag = not (is_blank tag) && every is_plain tag

-- Each is a tag, and none stands twice.
abbrev pub are_tags : List String → Bool
are_tags [] = true
are_tags (tag ∷ tags) = is_tag tag && (not (exists (str_eq tag) tags) && are_tags tags)

abbrev are_plain : List String → Bool
are_plain [] = true
are_plain (text ∷ texts) = every is_plain text && are_plain texts

tag_parts-plain :
    (text : String)
    → (every is_plain (tag_parts text).0 ≡ true) × (are_plain (tag_parts text).1 ≡ true)
unfolding tag_parts every
tag_parts-plain String.[] = (refl, refl)
tag_parts-plain (String.◌∷◌ c text) =
    let rest = tag_parts-plain text in
    elim (Bool-cases (code c == 44 || (code c == 0xff0c || code c == 10))) [
      | inl separator ↦ rw separator (refl, rw rest.0 rest.1)
      | inr plain ↦ rw plain (rw plain rest.0, rest.1)
    ]

-- A trimmed part that is not empty is a tag.
trimmed-is_tag :
    (part : String)
    → every is_plain part ≡ true
    → str_eq (trim_space part) "" ≡ false
    → is_tag (trim_space part) ≡ true
trimmed-is_tag part plain named = elim (Bool-cases (is_blank (trim_space part))) [
  | inr marked ↦ rw marked (every-trim_space is_plain part plain)
  | inl blank ↦
      let empty : str_eq (trim_space part) "" ≡ true =
        (str_eq_iff _ _).1 (blank-trim_space part blank) in
      cc
]

exists-append :
    (p : String → Bool) (xs : List String) (y : String)
    → exists p (xs ++ (y ∷ [])) ≡ (exists p xs || p y)
unfolding exists
exists-append p [] y = ground arith
exists-append p (x ∷ xs) y = ground (arith, exists-append p xs y)

str_eq_sym : (a b : String) → str_eq a b ≡ str_eq b a
str_eq_sym a b = ground (arith, str_eq_iff a b, str_eq_iff b a)

are_tags-append :
    (xs : List String) (tag : String)
    → are_tags xs ≡ true
    → is_tag tag ≡ true
    → exists (str_eq tag) xs ≡ false
    → are_tags (xs ++ (tag ∷ [])) ≡ true
unfolding exists
are_tags-append [] tag h named new = rw named refl
are_tags-append (x ∷ xs) tag h named new = ground (
  arith,
  are_tags-append xs tag,
  exists-append (str_eq x) xs tag,
  str_eq_sym tag x,
  h,
  named,
  new,
)

or_left : (a b : Bool) → (a || b) ≡ false → a ≡ false
or_left a b h = ground (arith, h)

or_right : (a b : Bool) → (a || b) ≡ false → b ≡ false
or_right a b h = ground (arith, h)

and_true : (a b : Bool) → (a && b) ≡ true → (a ≡ true) × (b ≡ true)
and_true a b h = ground (arith, h)

add_tag-are_tags :
    (result : List String) (part : String)
    → every is_plain part ≡ true
    → are_tags result ≡ true
    → are_tags (add_tag result (trim_space part)) ≡ true
add_tag-are_tags result part plain h =
    elim (Bool-cases (str_eq (trim_space part) "" || exists (str_eq (trim_space part)) result)) [
      | inl known ↦ rw known h
      | inr new ↦ rw new (
          are_tags-append result (trim_space part) h (trimmed-is_tag part plain (or_left _ _ new))
            (or_right _ _ new))
    ]

add_parts-are_tags :
    (result parts : List String)
    → are_plain parts ≡ true
    → are_tags result ≡ true
    → are_tags (add_parts result parts) ≡ true
unfolding add_parts
add_parts-are_tags result [] plain h = h
add_parts-are_tags result (part ∷ parts) plain h =
    add_parts-are_tags (add_tag result (trim_space part)) parts (and_true _ _ plain).1
      (add_tag-are_tags result part (and_true _ _ plain).0 h)

add_tags-are_tags :
    (result values : List String)
    → are_tags result ≡ true
    → are_tags (add_tags result values) ≡ true
unfolding add_tags
add_tags-are_tags result [] h = h
add_tags-are_tags result (value ∷ values) h =
    add_tags-are_tags (add_parts result ((tag_parts value).0 ∷ (tag_parts value).1)) values (
      add_parts-are_tags result ((tag_parts value).0 ∷ (tag_parts value).1)
        (rw (tag_parts-plain value).0 (tag_parts-plain value).1) h)

-- Whatever texts an operator gives: each tag that is kept has more than white space in it and none of the
-- separators (the two commas and the line break), and none stands twice.
pub normalize_tags-are_tags : (raw : List String) → are_tags (normalize_tags raw) ≡ true
unfolding normalize_tags
normalize_tags-are_tags raw = add_tags-are_tags [] raw refl

max_version-next :
    (id : String) (v : MetadataVersion) (vs : List MetadataVersion)
    → v.task_id ≡ id
    → v.version ≡ next_version (max_version id vs)
    → max_version id (v ∷ vs) ≡ some (next_version (max_version id vs))
unfolding max_version
max_version-next id v vs own next =
    rw own (rw (str_eq_refl id) (rw next (larger_next (max_version id vs))))
  where
    larger_next : (o : Option ℕ) → some (larger (next_version o) o) ≡ some (next_version o)
    larger_next none = refl
    larger_next (some n) = ap some (omega arith)

pub record Edited (id : String) (input : MetadataInput) (now : ℕ) (db after : Db) : Type 0 where
  pub task : Task
  pub statement : String
  pub read : task_of db id ≡ some task
  pub waits : is_awaiting_review task.status ≡ true
  pub row : task_of after id ≡ some (edited_task input statement now task)
  pub version :
      max_version id after.task_metadata_versions
      ≡ some (next_version (max_version id db.task_metadata_versions))

edit_metadata-Edited :
    (ids : ℕ → String) (id : String) (input : MetadataInput) (now : ℕ) (db : Db)
    → Ensures (Edited id input now db) (edit_metadata ids id input now db)
unfolding edit_metadata insert_metadata_version insert_review_audit
edit_metadata-Edited ids id input now db = Ensures-require _ _ _ (λ _.
    Ensures-or_fail _ _ _ (λ t read. Ensures-require _ _ _ (λ waits.
      Ensures-or_fail _ _ _ (λ statement _. committed (record {
        task = t;
        statement = statement;
        read = read;
        waits = waits;
        row =
            find-update_self (has_task_id id) (edited_task input statement now) db.tasks t
              (λ t. refl) read;
        version = max_version-next id _ db.task_metadata_versions refl refl;
      })))))

-- An edit that succeeds was made on a task that waits for its review. The task's row carries the edited
-- texts and keeps its statuses, and the versions of the metadata go on by exactly one.
pub edit_metadata-edits :
    (ids : ℕ → String) (id : String) (input : MetadataInput) (now : ℕ) (db after : Db)
    → edit_metadata ids id input now db ≡ ok after
    → Edited id input now db after
edit_metadata-edits ids id input now db after h =
    Ensures-ok (edit_metadata-Edited ids id input now db) h
