-- ===== src/Edits.antt =====
-- live/manual-edits-buffer.mjs: the buffer of the manual edits that wait to be committed.
pub mod Keys
pub mod Merging
pub mod Staging
pub mod Counts
use agent_bus.Shared.{
  Bool, Fields, List, Option, String, Value, [], any, if◌then◌else◌, length, ltb, none, or_else,
  some, str_eq, value_or, ℕ, ◌&&◌, ◌++◌, ◌+◌, ◌∷◌,
}

-- An operation of a Save. What else the browser sends along is `evidence`.
pub record Op : Type 0 where
  pub ref : String
  pub original_text : String
  pub new_text : Option String
  pub deleted : Bool
  pub evidence : Fields

-- An entry of the buffer, or a new one with its operations; `element` is `none` where it is falsy.
pub record Edit : Type 0 where
  pub id : String
  pub page_url : String
  pub element : Option Value
  pub ops : List Op
  pub staged_at : String

-- What `readFileSync` and `JSON.parse` find at the buffer's path: no file (ENOENT), something that
-- cannot be read or parsed, a value without an array of entries, or the entries.
pub data BufferFile : Type 0 where
  absent unreadable invalid_schema : BufferFile
  entries_of : List Edit → BufferFile

-- readBuffer
unfoldable pub read_buffer : BufferFile → List Edit
read_buffer (entries_of es) = es
read_buffer _ = []

-- readBufferStrict; `none` is the error `manual_edit_buffer_unreadable`, which an invalid schema ends
-- in as well.
unfoldable pub read_buffer_strict : BufferFile → Option (List Edit)
read_buffer_strict absent = some []
read_buffer_strict (entries_of es) = some es
read_buffer_strict _ = none

-- `ops.findIndex((op) => op.ref === ref) >= 0`
abbrev pub has_ref : String → List Op → Bool
has_ref ref ops = any (λ o. str_eq o.ref ref) ops

-- The new operation in the place of the first that has its ref, with the original text of that.
unfoldable pub merge_op : Op → List Op → List Op
merge_op new [] = []
merge_op new (o ∷ os) =
    let rest = merge_op new os in
    if str_eq o.ref new.ref then record new { original_text = o.original_text } ∷ os else o ∷ rest

unfoldable pub refresh : String → Edit → Op → Edit → Edit
unfolding merge_op
refresh now new op e = record e {
  ops = merge_op op e.ops;
  element = or_else new.element e.element;
  staged_at = now;
}

-- The inner loop: the first entry of the page that has the ref is refreshed; `none` if none has.
unfoldable pub merge_entries : String → Edit → Op → List Edit → Option (List Edit)
unfolding refresh
merge_entries now new op [] = none
merge_entries now new op (e ∷ es) =
    let rest = merge_entries now new op es in
    if str_eq e.page_url new.page_url && has_ref op.ref e.ops
    then some (refresh now new op e ∷ es)
    else elim rest [ none ↦ none | some es' ↦ some (e ∷ es') ]

-- An operation that is merged nowhere goes to the entry of the same page and id, or to a new entry.
unfoldable pub add_op : String → Edit → Op → List Edit → List Edit
add_op now new op [] = record new { ops = op ∷ []; staged_at = now } ∷ []
add_op now new op (e ∷ es) =
    let rest = add_op now new op es in
    if str_eq e.page_url new.page_url && str_eq e.id new.id
    then record e { ops = e.ops ++ op ∷ []; staged_at = now } ∷ es
    else e ∷ rest

-- A round of the outer loop.
unfoldable pub stage_op : String → Edit → List Edit → Op → List Edit
unfolding merge_entries add_op
stage_op now new es op = value_or (merge_entries now new op es) (add_op now new op es)

unfoldable pub stage_ops : String → Edit → List Edit → List Op → List Edit
unfolding stage_op
stage_ops now new es [] = es
stage_ops now new es (op ∷ ops) = stage_ops now new (stage_op now new es op) ops

-- stageEntry: the file that is written, which is the buffer that is returned as well; `none` if the
-- strict read throws, and then nothing is written.
unfoldable pub stage_entry : String → Edit → BufferFile → Option BufferFile
unfolding read_buffer_strict stage_ops
stage_entry now new file = elim (read_buffer_strict file) [
  | none ↦ none
  | some es ↦ some (entries_of (stage_ops now new es new.ops))
]

-- removeEntries: the number of removed operations, and the entries that are kept.
unfoldable pub remove_from : (Edit → Bool) → List Edit → ℕ × List Edit
remove_from test [] = (0, [])
remove_from test (e ∷ es) =
    let (removed, kept) = remove_from test es in
    if test e
    then (length e.ops + removed, kept)
    else (removed, (if ltb 0 (length e.ops) then e ∷ kept else kept))

unfoldable pub remove_entries : (Edit → Bool) → BufferFile → ℕ × BufferFile
unfolding read_buffer remove_from
remove_entries test file =
    let (removed, kept) = remove_from test (read_buffer file) in (removed, entries_of kept)

-- `perPage[pageUrl] = (perPage[pageUrl] || 0) + n`
unfoldable pub add_count : String → ℕ → List (String × ℕ) → List (String × ℕ)
add_count page n [] = (page, n) ∷ []
add_count page n ((p, m) ∷ rest) =
    let more = add_count page n rest in if str_eq p page then (p, m + n) ∷ rest else (p, m) ∷ more

unfoldable pub count_from : ℕ × List (String × ℕ) → List Edit → ℕ × List (String × ℕ)
unfolding add_count
count_from counts [] = counts
count_from (total, per_page) (e ∷ es) =
    count_from (total + length e.ops, add_count e.page_url (length e.ops) per_page) es

-- countByPage
unfoldable pub count_by_page : BufferFile → ℕ × List (String × ℕ)
unfolding read_buffer count_from
count_by_page file = count_from (0, []) (read_buffer file)

unfoldable pub op_count : List Edit → ℕ
op_count [] = 0
op_count (e ∷ es) = length e.ops + op_count es

-- truncateBuffer
unfoldable pub truncate_buffer : BufferFile → ℕ × BufferFile
unfolding read_buffer op_count
truncate_buffer file = (op_count (read_buffer file), entries_of [])
